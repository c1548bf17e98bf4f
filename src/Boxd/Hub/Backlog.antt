-- ===== src/Boxd/Hub/Backlog.antt =====
-- What a subscriber finds that comes after the first outputs, and how much reaches it.
use mathlib.Core.List.{append_assoc, append-nil}
use novita_box.Common.{
  ℕ, zero, suc, ◌+◌, ◌-◌, ◌≤◌, ◌≡◌, refl, sym, ap, ◌∙◌, Bool, true, false, List, [], ◌∷◌, ◌++◌, map,
  length, length-append, ltb, if_elim, Bool-cases, inl, inr, if◌then◌else◌, arith,
}
use novita_box.Boxd.Messages.{ProcessOutput}
use novita_box.Boxd.Hub.{
  OutputHub, new_output_hub, skip, offer, keep_pending, deliver, publish, subscribe,
}

abbrev Outputs : Type 0
Outputs = List ProcessOutput

abbrev pub publish_all : Outputs → OutputHub → OutputHub
publish_all [] h = h
publish_all (output ∷ outputs) h = publish_all outputs (publish output h)

-- The last `n` outputs of a list.
abbrev pub last_outputs : ℕ → Outputs → Outputs
last_outputs n os = skip (length os - n) os

abbrev pub first_outputs : ℕ → Outputs → Outputs
first_outputs zero os = []
first_outputs (suc n) [] = []
first_outputs (suc n) (output ∷ os) = output ∷ first_outputs n os

first_outputs-nil : (n : ℕ) → first_outputs n [] ≡ []
first_outputs-nil zero = refl
first_outputs-nil (suc n) = refl

skip-zero : (os : Outputs) → skip 0 os ≡ os
skip-zero [] = refl
skip-zero (x ∷ os) = refl

skip-append : (n : ℕ) (xs ys : Outputs) → n ≤ length xs → skip n (xs ++ ys) ≡ skip n xs ++ ys
skip-append zero [] ys h = skip-zero ys
skip-append zero (x ∷ xs) ys h = refl
skip-append (suc n) [] ys h = absurd (omega arith)
skip-append (suc n) (x ∷ xs) ys h = skip-append n xs ys (omega arith)

skip-skip : (n m : ℕ) (xs : Outputs) → skip n (skip m xs) ≡ skip (n + m) xs
skip-skip n zero xs = ap (skip n) (skip-zero xs) ∙ ap (λ (k : ℕ). skip k xs) (omega arith)
skip-skip n (suc m) [] = refl
skip-skip n (suc m) (x ∷ xs) =
    let e : suc (n + m) ≡ n + suc m = omega arith in
    skip-skip n m xs ∙ ap (λ (k : ℕ). skip k (x ∷ xs)) e

length-skip : (n : ℕ) (xs : Outputs) → length (skip n xs) ≡ length xs - n
length-skip n [] = omega arith
length-skip zero (x ∷ xs) = omega arith
length-skip (suc n) (x ∷ xs) = omega (arith, length-skip n xs)

-- What is dropped early would be dropped late as well.
last-append-last :
    (n : ℕ) (xs ys : Outputs) → last_outputs n (last_outputs n xs ++ ys) ≡ last_outputs n (xs ++ ys)
last-append-last n xs ys =
    ap (last_outputs n) (sym (skip-append k xs ys (omega arith)))
    ∙ skip-skip (length (skip k (xs ++ ys)) - n) k (xs ++ ys)
    ∙ ap (λ (m : ℕ). skip m (xs ++ ys))
        (omega (arith, length-skip k (xs ++ ys), length-append xs ys))
  where
    k : ℕ
    k = length xs - n

keep_pending_lem : (os : Outputs) → keep_pending os ≡ last_outputs 64 os
unfolding keep_pending
keep_pending_lem os =
    if_elim (λ kept. kept ≡ last_outputs 64 os) (ltb 64 (length os)) (λ _. refl)
      (λ few. sym (skip-zero os) ∙ ap (λ (k : ℕ). skip k os) (ground arith))

abbrev waiting : Outputs → OutputHub
waiting pending = record { closed = false; pending = pending; subs = []; channels = [] }

publish-waiting :
    (output : ProcessOutput) (os : Outputs)
    → publish output (waiting os) ≡ waiting (last_outputs 64 (os ++ (output ∷ [])))
unfolding publish deliver
publish-waiting output os = ap waiting (keep_pending_lem (os ++ (output ∷ [])))

publish_all-waiting :
    (os xs : Outputs)
    → publish_all os (waiting (last_outputs 64 xs)) ≡ waiting (last_outputs 64 (xs ++ os))
publish_all-waiting [] xs =
    ap (λ (ys : Outputs). waiting (last_outputs 64 ys)) (sym (append-nil xs))
publish_all-waiting (output ∷ os) xs =
    ap (publish_all os) (
      publish-waiting output (last_outputs 64 xs)
      ∙ ap waiting (last-append-last 64 xs (output ∷ [])))
    ∙ publish_all-waiting os (xs ++ (output ∷ []))
    ∙ ap (λ (ys : Outputs). waiting (last_outputs 64 ys)) (append_assoc xs (output ∷ []) os)

-- One channel with room for 64 outputs, of which none is taken out.
abbrev attached : Outputs → OutputHub
attached queue = record {
  closed = false;
  pending = [];
  subs = 0 ∷ [];
  channels =
      record { number = 0; buffer_size = 64; queue = queue; is_closed = false; received = [] } ∷ [];
}

subscribe-waiting : (os : Outputs) → length os ≤ 64 → (subscribe (waiting os)).1 ≡ attached os
unfolding subscribe
subscribe-waiting os h =
    let few : ltb 64 (length os) ≡ false = ground arith in
    ap
      (λ (b : Bool). record (attached os) {
        channels =
            record {
              number = 0;
              buffer_size = if b then length os else 64;
              queue = os;
              is_closed = false;
              received = [];
            }
            ∷ [];
      })
      few

publish-attached_room :
    (output : ProcessOutput) (queue : Outputs)
    → ltb (length queue) 64 ≡ true
    → publish output (attached queue) ≡ attached (queue ++ (output ∷ []))
unfolding publish deliver offer
publish-attached_room output queue room = rw room refl

publish-attached_full :
    (output : ProcessOutput) (queue : Outputs)
    → ltb (length queue) 64 ≡ false
    → publish output (attached queue) ≡ attached queue
unfolding publish deliver offer
publish-attached_full output queue full = rw full refl

first_outputs-suc :
    (n m : ℕ) (output : ProcessOutput) (os : Outputs)
    → n ≡ suc m
    → first_outputs n (output ∷ os) ≡ output ∷ first_outputs m os
first_outputs-suc n m output os e = ap (λ (k : ℕ). first_outputs k (output ∷ os)) e

publish_all-attached :
    (ps queue : Outputs)
    → publish_all ps (attached queue) ≡ attached (queue ++ first_outputs (64 - length queue) ps)
publish_all-attached [] queue = ap attached (
    sym (append-nil queue)
    ∙ ap (λ (os : Outputs). queue ++ os) (sym (first_outputs-nil (64 - length queue))))
publish_all-attached (output ∷ ps) queue = elim (Bool-cases (ltb (length queue) 64)) [
  | inl room ↦
      ap (publish_all ps) (publish-attached_room output queue room)
      ∙ publish_all-attached ps (queue ++ (output ∷ []))
      ∙ ap attached (
          append_assoc queue (output ∷ []) _
          ∙ ap (λ (os : Outputs). queue ++ os)
              (sym (
                first_outputs-suc (64 - length queue) (64 - length (queue ++ (output ∷ []))) output
                  ps (ground (arith, length-append queue (output ∷ []))))))
  | inr full ↦
      let none_left : 64 - length queue ≡ 0 = ground arith in
      ap (publish_all ps) (publish-attached_full output queue full)
      ∙ publish_all-attached ps queue
      ∙ ap (λ (k : ℕ). attached (queue ++ first_outputs k ps)) none_left
      ∙ ap (λ (k : ℕ). attached (queue ++ first_outputs k (output ∷ ps))) (sym none_left)
]

-- The one subscriber of a process, when it comes after `os` and reads nothing while `ps` are
-- published, finds the last 64 of `os` and behind them as many of the first `ps` as make 64.
pub late_subscriber :
    (os ps : Outputs)
    → map (λ c. c.queue) (publish_all ps (subscribe (publish_all os new_output_hub)).1).channels
      ≡ (last_outputs 64 os ++ first_outputs (64 - length (last_outputs 64 os)) ps) ∷ []
unfolding new_output_hub
late_subscriber os ps =
    ap (λ h. map (λ c. c.queue) h.channels)
      (ap (λ h. publish_all ps (subscribe h).1) (publish_all-waiting os [])
        ∙ ap (publish_all ps) (
            subscribe-waiting (last_outputs 64 os) (omega (arith, length-skip (length os - 64) os)))
        ∙ publish_all-attached ps (last_outputs 64 os))
