-- ===== src/Boxd/Hub/Order.antt =====
-- Each operation of a hub keeps the order of the outputs.
use mathlib.Core.List.{append_assoc, append-nil, Sublistᴰ}
use mathlib.Core.List.Sublistᴰ.{slnil, cons, cons-cons, nil-sublist}
use novita_box.Common.{
  ℕ, zero, suc, ◌-◌, ltb, any, ◌==◌, length, refl, Bool, List, [], ◌∷◌, ◌++◌, map, All, Bool-cases,
  if_elim, inl, inr, if◌then◌else◌,
}
use novita_box.Boxd.Messages.{ProcessOutput}
use novita_box.Boxd.Hub.{
  Channel, OutputHub, is_sub, skip, offer, keep_pending, deliver, publish, subscribe, close_channel,
  cancel, close, take_first, receive, HubEvent, published, closed_hub,
}

-- The outputs that are published before the hub is closed.
abbrev pub outputs_while_open : List HubEvent → List ProcessOutput
outputs_while_open [] = []
outputs_while_open (published output ∷ es) = output ∷ outputs_while_open es
outputs_while_open (closed_hub ∷ es) = []
outputs_while_open (e ∷ es) = outputs_while_open es

-- What a reader took from a channel, and what it may still take.
abbrev pub seen : Channel → List ProcessOutput
seen c = c.received ++ c.queue

pub record IsOrdered (log : List ProcessOutput) (h : OutputHub) : Type 0 where
  pub pending_ordered : Sublistᴰ h.pending log
  pub channels_ordered : All (λ c. Sublistᴰ (seen c) log) h.channels

module _ {A : Type 0} where
  sublist-snoc : {xs ys : List A} (a : A) → Sublistᴰ xs ys → Sublistᴰ xs (ys ++ (a ∷ []))
  sublist-snoc a slnil = cons slnil
  sublist-snoc a (cons s) = cons (sublist-snoc a s)
  sublist-snoc a (cons-cons e s) = cons-cons e (sublist-snoc a s)

  snoc-sublist-snoc :
      {xs ys : List A} (a : A) → Sublistᴰ xs ys → Sublistᴰ (xs ++ (a ∷ [])) (ys ++ (a ∷ []))
  snoc-sublist-snoc a slnil = cons-cons refl slnil
  snoc-sublist-snoc a (cons s) = cons (snoc-sublist-snoc a s)
  snoc-sublist-snoc a (cons-cons e s) = cons-cons e (snoc-sublist-snoc a s)

  All-map :
      (P Q : A → Type 0) (f : A → A)
      → ((a : A) → P a → Q (f a))
      → (xs : List A) → All P xs
      → All Q (map f xs)
  All-map P Q f keep [] h = tt
  All-map P Q f keep (x ∷ xs) h = (keep x h.0, All-map P Q f keep xs h.1)

  All-same : (P Q : A → Type 0) → ((a : A) → P a → Q a) → (xs : List A) → All P xs → All Q xs
  All-same P Q keep [] h = tt
  All-same P Q keep (x ∷ xs) h = (keep x h.0, All-same P Q keep xs h.1)

skip-sublist :
    (n : ℕ) (xs : List ProcessOutput) {log : List ProcessOutput}
    → Sublistᴰ xs log
    → Sublistᴰ (skip n xs) log
skip-sublist n xs slnil = slnil
skip-sublist n xs (cons s) = cons (skip-sublist n xs s)
skip-sublist zero _ (cons-cons e s) = cons-cons e s
skip-sublist (suc n) _ (cons-cons e s) = cons (skip-sublist n _ s)

offer-ordered :
    (output : ProcessOutput) (log : List ProcessOutput) (c : Channel)
    → Sublistᴰ (seen c) log
    → Sublistᴰ (seen (offer output c)) (log ++ (output ∷ []))
unfolding offer
offer-ordered output log c s = elim (Bool-cases (ltb (length c.queue) c.buffer_size)) [
  | inl room ↦
      rw (room, ← append_assoc c.received c.queue (output ∷ [])) (snoc-sublist-snoc output s)
  | inr full ↦ rw full (sublist-snoc output s)
]

take_first-ordered :
    (log : List ProcessOutput) (c : Channel)
    → Sublistᴰ (seen c) log
    → Sublistᴰ (seen (take_first c)) log
unfolding take_first
take_first-ordered log c s = queue_case c.queue s
  where
    queue_case :
        (q : List ProcessOutput)
        → Sublistᴰ (c.received ++ q) log
        → Sublistᴰ
            (seen (elim q [
              | [] ↦ c
              | output ∷ rest ↦ record c { queue = rest; received = c.received ++ (output ∷ []) }
            ]))
            log
    queue_case [] t = s
    queue_case (output ∷ rest) t = rw (append_assoc c.received (output ∷ []) rest) t

abbrev Orders : List ProcessOutput → Channel → Type 0
Orders log c = Sublistᴰ (seen c) log

sublist-append :
    {xs log : List ProcessOutput} (more : List ProcessOutput)
    → Sublistᴰ xs log
    → Sublistᴰ xs (log ++ more)
sublist-append [] s = rw append-nil s
sublist-append {log = log} (a ∷ more) s =
    rw (append_assoc log (a ∷ []) more) at (sublist-append more (sublist-snoc a s))

append-IsOrdered-channels :
    (log more : List ProcessOutput) (h : OutputHub)
    → IsOrdered log h
    → All (Orders (log ++ more)) h.channels
append-IsOrdered-channels log more h o =
    All-same (Orders log) (Orders (log ++ more)) (λ c s. sublist-append more s) h.channels
      o.channels_ordered

append-IsOrdered :
    (log more : List ProcessOutput) (h : OutputHub) → IsOrdered log h → IsOrdered (log ++ more) h
append-IsOrdered log more h o = record {
  pending_ordered = sublist-append more o.pending_ordered;
  channels_ordered = append-IsOrdered-channels log more h o;
}

keep_pending-sublist :
    (xs log : List ProcessOutput) → Sublistᴰ xs log → Sublistᴰ (keep_pending xs) log
unfolding keep_pending
keep_pending-sublist xs log s =
    if_elim (λ ys. Sublistᴰ ys log) (ltb 64 (length xs)) (λ _. skip-sublist (length xs - 64) xs s)
      (λ _. s)

deliver-IsOrdered :
    (subs : List ℕ) (output : ProcessOutput) (log : List ProcessOutput) (h : OutputHub)
    → IsOrdered log h
    → IsOrdered (log ++ (output ∷ [])) (deliver subs output h)
unfolding deliver
deliver-IsOrdered [] output log h o = record {
  pending_ordered = keep_pending-sublist _ _ (snoc-sublist-snoc output o.pending_ordered);
  channels_ordered = append-IsOrdered-channels log (output ∷ []) h o;
}
deliver-IsOrdered (n ∷ ns) output log h o = record {
  pending_ordered = sublist-snoc output o.pending_ordered;
  channels_ordered =
      All-map (Orders log) (Orders (log ++ (output ∷ [])))
        (λ c. if is_sub (n ∷ ns) c then offer output c else c)
        (λ c s.
          if_elim (Orders (log ++ (output ∷ []))) (is_sub (n ∷ ns) c)
            (λ _. offer-ordered output log c s) (λ _. sublist-snoc output s))
        h.channels o.channels_ordered;
}

pub publish-IsOrdered :
    (output : ProcessOutput) (log : List ProcessOutput) (h : OutputHub)
    → IsOrdered log h
    → IsOrdered (log ++ (output ∷ [])) (publish output h)
unfolding publish
publish-IsOrdered output log h o =
    if_elim (IsOrdered (log ++ (output ∷ []))) h.closed
      (λ _. append-IsOrdered log (output ∷ []) h o) (λ _. deliver-IsOrdered h.subs output log h o)

module _ (log : List ProcessOutput) (h : OutputHub) (o : IsOrdered log h) where
  -- Changes of channels that leave alone what was seen.
  same_seen :
      (test : Channel → Bool) (f : Channel → Channel)
      → ((c : Channel) → Orders log c → Orders log (f c))
      → All (Orders log) (map (λ c. if test c then f c else c) h.channels)
  same_seen test f keep =
      All-map (Orders log) (Orders log) (λ c. if test c then f c else c)
        (λ c s. if_elim (Orders log) (test c) (λ _. keep c s) (λ _. s)) h.channels
        o.channels_ordered

  pub subscribe-IsOrdered : IsOrdered log (subscribe h).1
  unfolding subscribe
  subscribe-IsOrdered = record {
    pending_ordered = nil-sublist log;
    channels_ordered = (o.pending_ordered, o.channels_ordered);
  }

  pub cancel-IsOrdered : (n : ℕ) → IsOrdered log (cancel n h)
  unfolding cancel close_channel
  cancel-IsOrdered n =
      if_elim (IsOrdered log) (any (λ m. m == n) h.subs)
        (λ _. record {
          pending_ordered = o.pending_ordered;
          channels_ordered = same_seen (λ c. c.number == n) close_channel (λ c s. s);
        })
        (λ _. o)

  pub close-IsOrdered : IsOrdered log (close h)
  unfolding close close_channel
  close-IsOrdered =
      if_elim (IsOrdered log) h.closed (λ _. o)
        (λ _. record {
          pending_ordered = o.pending_ordered;
          channels_ordered = same_seen (is_sub h.subs) close_channel (λ c s. s);
        })

  pub receive-IsOrdered : (n : ℕ) → IsOrdered log (receive n h)
  unfolding receive
  receive-IsOrdered n = record {
    pending_ordered = o.pending_ordered;
    channels_ordered = same_seen (λ c. c.number == n) take_first (take_first-ordered log);
  }
