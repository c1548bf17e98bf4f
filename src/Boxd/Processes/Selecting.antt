-- ===== src/Boxd/Processes/Selecting.antt =====
-- Which process a selector finds, and what the table holds after each change.
use mathlib.Core.Path.{subst}
use novita_box.Common.{
  ◌<◌, ◌≡◌, refl, ◌⊎◌, inl, inr, ◌↔◌, Bool, true, false, Option, none, some, [], ◌∷◌, All, ltb,
  ◌==◌, arith, if_elim,
}
use novita_box.Boxd.Wire.{Bytes}
use novita_box.Boxd.Base64.{is_empty}
use novita_box.Boxd.Messages.{ConnectProcessSelector}
use novita_box.Boxd.Messages.Requests.{eq_bytes}
use novita_box.Boxd.Processes.{
  ManagedProcess, ProcessManager, pid, find, get_by_pid, get_by_tag, process_from_selector,
}

eq_bytes_sound : (a b : Bytes) → eq_bytes a b ≡ true → a ≡ b
eq_bytes_sound [] [] h = refl
eq_bytes_sound [] (y ∷ b) h = cc
eq_bytes_sound (x ∷ a) [] h = cc
eq_bytes_sound (x ∷ a) (y ∷ b) h = ground (arith, eq_bytes_sound a b)

eq_bytes_refl : (a : Bytes) → eq_bytes a a ≡ true
eq_bytes_refl [] = refl
eq_bytes_refl (x ∷ a) = ground (arith, eq_bytes_refl a)

eq_bytes_iff : (a b : Bytes) → (eq_bytes a b ≡ true) ↔ (a ≡ b)
eq_bytes_iff a b = (eq_bytes_sound a b, λ e. subst (λ c. eq_bytes a c ≡ true) e (eq_bytes_refl a))

abbrev pub IsIn : ManagedProcess → ProcessManager → Type 0
IsIn p [] = ⊥
IsIn p (q ∷ ps) = (p ≡ q) ⊎ IsIn p ps

abbrev IsFindEnd : (ManagedProcess → Bool) → ProcessManager → Option ManagedProcess → Type 0
IsFindEnd test ps none = All (λ p. test p ≡ false) ps
IsFindEnd test ps (some p) = IsIn p ps × (test p ≡ true)

-- A search ends at an element of the table that passes the test, or no element passes it.
find_end : (test : ManagedProcess → Bool) (ps : ProcessManager) → IsFindEnd test ps (find test ps)
find_end test [] = tt
find_end test (p ∷ ps) =
    if_elim (IsFindEnd test (p ∷ ps)) (test p) (λ h. (inl refl, h))
      (λ h. later (find test ps) h (find_end test ps))
  where
    later :
        (o : Option ManagedProcess)
        → test p ≡ false
        → IsFindEnd test ps o
        → IsFindEnd test (p ∷ ps) o
    later none h e = (h, e)
    later (some q) h (i, t) = (inr i, t)

-- What a selector asks for: the number of a process when it is not 0, otherwise a tag.
abbrev pub Selects : ConnectProcessSelector → ManagedProcess → Type 0
Selects s p =
    ((0 < s.pid) × (pid p ≡ s.pid)) ⊎ ((s.pid ≡ 0) × (is_empty s.tag ≡ false) × (p.tag ≡ s.tag))

abbrev pub IsSelection : ConnectProcessSelector → ProcessManager → Option ManagedProcess → Type 0
IsSelection s ps none = All (λ p. ¬ Selects s p) ps
IsSelection s ps (some p) = IsIn p ps × Selects s p

module _ (s : ConnectProcessSelector) (test : ManagedProcess → Bool) where
  selection :
      ((p : ManagedProcess) → test p ≡ true → Selects s p)
      → ((p : ManagedProcess) → test p ≡ false → ¬ Selects s p)
      → (ps : ProcessManager) (o : Option ManagedProcess) → IsFindEnd test ps o
      → IsSelection s ps o
  selection pass fail ps (some p) (i, t) = (i, pass p t)
  selection pass fail ps none e = all_fail ps e
    where
      all_fail : (qs : ProcessManager) → All (λ p. test p ≡ false) qs → All (λ p. ¬ Selects s p) qs
      all_fail [] h = tt
      all_fail (q ∷ qs) (h, hs) = (fail q h, all_fail qs hs)

nothing_selected :
    (s : ConnectProcessSelector) (ps : ProcessManager)
    → ((p : ManagedProcess) → ¬ Selects s p)
    → All (λ p. ¬ Selects s p) ps
nothing_selected s [] h = tt
nothing_selected s (p ∷ ps) h = (h p, nothing_selected s ps h)

-- A selector finds a process of the table that it asks for, and finds none only when the table
-- has none: by the number of the process when the selector has one, otherwise by a tag, and a
-- selector with neither asks for no process.
pub process_from_selector-IsSelection :
    (s : ConnectProcessSelector) (ps : ProcessManager)
    → IsSelection s ps (process_from_selector (some s) ps)
unfolding process_from_selector get_by_pid get_by_tag
process_from_selector-IsSelection s ps =
    if_elim (IsSelection s ps) (ltb 0 s.pid)
      (λ h.
        selection s (λ p. pid p == s.pid) (λ p t. ground arith) (λ p t. λ x. ground arith) ps _
          (find_end (λ p. pid p == s.pid) ps))
      (λ h.
        if_elim (IsSelection s ps) (is_empty s.tag)
          (λ e. nothing_selected s ps (λ p x. ground arith))
          (λ e.
            selection s (λ p. eq_bytes p.tag s.tag)
              (λ p t. inr (ground arith, e, eq_bytes_sound p.tag s.tag t))
              (λ p t. λ x. ground (arith, (eq_bytes_iff p.tag s.tag).1)) ps _
              (find_end (λ p. eq_bytes p.tag s.tag) ps)))
