-- ===== src/Boxd/Hub/Runs.antt =====
-- No subscriber sees outputs out of order or twice.
use mathlib.Core.Bool.{true≢false}
use mathlib.Core.List.{append_assoc, append-nil, Sublistᴰ}
use mathlib.Core.List.Sublistᴰ.{slnil}
use novita_box.Common.{◌≡◌, refl, sym, ◌∙◌, true, List, [], ◌∷◌, ◌++◌, All, any, ◌==◌, if_elim}
use novita_box.Boxd.Messages.{ProcessOutput}
use novita_box.Boxd.Hub.{
  OutputHub, new_output_hub, publish, subscribe, cancel, close, receive, HubEvent, published,
  subscribed, closed_hub, cancelled, received_from, hub_step, run_hub,
}
use novita_box.Boxd.Hub.Order.{
  outputs_while_open, seen, IsOrdered, publish-IsOrdered, subscribe-IsOrdered, cancel-IsOrdered,
  close-IsOrdered, receive-IsOrdered,
}

stays_closed : (e : HubEvent) (h : OutputHub) → h.closed ≡ true → (hub_step e h).closed ≡ true
unfolding publish subscribe close cancel receive
stays_closed (published output) h c =
    if_elim (λ (k : OutputHub). k.closed ≡ true) h.closed (λ _. c)
      (λ opened. absurd (true≢false (sym c ∙ opened)))
stays_closed subscribed h c = c
stays_closed closed_hub h c =
    if_elim (λ (k : OutputHub). k.closed ≡ true) h.closed (λ _. c) (λ _. refl)
stays_closed (cancelled n) h c =
    if_elim (λ (k : OutputHub). k.closed ≡ true) (any (λ m. m == n) h.subs) (λ _. c) (λ _. c)
stays_closed (received_from n) h c = c

-- Nothing is added to a closed hub.
closed_step :
    (e : HubEvent) (log : List ProcessOutput) (h : OutputHub)
    → h.closed ≡ true
    → IsOrdered log h
    → IsOrdered log (hub_step e h)
unfolding publish
closed_step (published output) log h c o =
    if_elim (IsOrdered log) h.closed (λ _. o) (λ opened. absurd (true≢false (sym c ∙ opened)))
closed_step subscribed log h c o = subscribe-IsOrdered log h o
closed_step closed_hub log h c o = close-IsOrdered log h o
closed_step (cancelled n) log h c o = cancel-IsOrdered log h o n
closed_step (received_from n) log h c o = receive-IsOrdered log h o n

closed-IsOrdered :
    (es : List HubEvent) (log : List ProcessOutput) (h : OutputHub)
    → h.closed ≡ true
    → IsOrdered log h
    → IsOrdered log (run_hub es h)
closed-IsOrdered [] log h c o = o
closed-IsOrdered (e ∷ es) log h c o =
    closed-IsOrdered es log (hub_step e h) (stays_closed e h c) (closed_step e log h c o)

closes : (h : OutputHub) → (close h).closed ≡ true
unfolding close
closes h = if_elim (λ (k : OutputHub). k.closed ≡ true) h.closed (λ c. c) (λ _. refl)

run-IsOrdered :
    (es : List HubEvent) (log : List ProcessOutput) (h : OutputHub)
    → IsOrdered log h
    → IsOrdered (log ++ outputs_while_open es) (run_hub es h)
run-IsOrdered [] log h o = rw (append-nil log) o
run-IsOrdered (published output ∷ es) log h o =
    rw (append_assoc log (output ∷ []) (outputs_while_open es)) at (
      run-IsOrdered es (log ++ (output ∷ [])) (publish output h) (publish-IsOrdered output log h o))
run-IsOrdered (closed_hub ∷ es) log h o =
    rw (append-nil log) (closed-IsOrdered es log (close h) (closes h) (close-IsOrdered log h o))
run-IsOrdered (subscribed ∷ es) log h o =
    run-IsOrdered es log (subscribe h).1 (subscribe-IsOrdered log h o)
run-IsOrdered (cancelled n ∷ es) log h o =
    run-IsOrdered es log (cancel n h) (cancel-IsOrdered log h o n)
run-IsOrdered (received_from n ∷ es) log h o =
    run-IsOrdered es log (receive n h) (receive-IsOrdered log h o n)

-- Whatever happens to a new hub, each subscriber sees a part of what was published before the hub
-- was closed, in the order of publishing, and no output twice.
pub run_hub_lem :
    (es : List HubEvent)
    → All (λ c. Sublistᴰ (seen c) (outputs_while_open es)) (run_hub es new_output_hub).channels
unfolding new_output_hub
run_hub_lem es =
    (run-IsOrdered es [] new_output_hub
      (record { pending_ordered = slnil; channels_ordered = tt })).channels_ordered
