-- ===== src/Store/Sandbox/Repeat.antt =====
-- AssignSandboxNetworkSlot called again: for the same sandbox and for another one.
use mathlib.Core.Path.{subst}
use novita_box.Common.{
  ℕ, ◌^◌, ◌<◌, ◌≡◌, refl, sym, ap, ◌∙◌, inl, inr, some, String, Result, ok, err, ok-injective,
  arith, ◌==◌, Bool-cases,
}
use novita_box.Common.Int.{ℤ}
use novita_box.Store.Table.{find}
use novita_box.Store.Records.{SandboxRecord, Db, StoreError, IsValid}
use novita_box.Store.Sandbox.{has_id, assign_sandbox_network_slot}
use novita_box.Store.Sandbox.Assign.{assign_sandbox_network_slot-cases}

-- The row of a sandbox that has a slot.
record HasRow (id : String) (s : ℕ) (db : Db) : Type 0 where
  pub kept : SandboxRecord
  pub read : find (has_id id) db.sandboxes ≡ some kept
  pub slot : kept.network_slot ≡ s
  pub positive : 0 < s
  pub still_valid : IsValid db

abbrev Answer : Type 0
Answer = Result StoreError ℕ × Db

-- A call has one answer.
same_slot : {s t : ℕ} {db next : Db} (r : Answer) → r ≡ (ok t, next) → r ≡ (ok s, db) → t ≡ s
same_slot r first second =
    ok-injective r.0 (ap (λ (p : Answer). p.0) first) (ap (λ (p : Answer). p.0) second)

refused :
    {s : ℕ} {e : StoreError} {db next : Db} (r : Answer) → r ≡ (err e, next) → r ≡ (ok s, db) → ⊥
refused r first second =
    ground (arith, ap (λ (p : Answer). p.0) first, ap (λ (p : Answer). p.0) second)

HasRow-answer :
    (id : String) (s t : ℕ) (db next : Db) (r : Answer)
    → r ≡ (ok t, next)
    → r ≡ (ok s, db)
    → HasRow id t next
    → HasRow id s db
HasRow-answer id s t db next r first second row =
    subst (λ d. HasRow id s d)
      (sym (ap (λ (p : Answer). p.1) first) ∙ ap (λ (p : Answer). p.1) second)
      (subst (λ n. HasRow id n next) (same_slot r first second) row)

keeps_slot :
    (later : ℤ) (id : String) (s max_slot : ℕ) (db : Db)
    → HasRow id s db
    → 0 < max_slot
    → assign_sandbox_network_slot later id max_slot db ≡ (ok s, db)
unfolding assign_sandbox_network_slot
keeps_slot later id s max_slot db row pos = ground (arith, row.read, row.slot, row.positive)

module _ (now : ℤ) (id : String) (max_slot s : ℕ) (r : SandboxRecord) (db db' : Db) (v : IsValid db)
    (pos : 0 < max_slot) (small : max_slot < 2 ^ 32) (here : find (has_id id) db.sandboxes ≡ some r)
    (assigned : assign_sandbox_network_slot now id max_slot db ≡ (ok s, db')) where
  assigned-HasRow : HasRow id s db'
  unfolding assign_sandbox_network_slot
  assigned-HasRow = elim (Bool-cases (r.network_slot == 0)) [
    | inl unslotted ↦
        elim (assign_sandbox_network_slot-cases now id max_slot db r v pos small here
          (ground arith)) [
            | inl (full, _) ↦ absurd (refused _ full assigned)
            | inr (t, next, done, tp, _, _, _, a) ↦
                HasRow-answer id s t db' next _ done assigned (record {
                  kept = _;
                  read = a.row;
                  slot = refl;
                  positive = tp;
                  still_valid = a.valid;
                })
          ]
    | inr slotted ↦
        HasRow-answer id s r.network_slot db' db _ (ground arith) assigned
          (record { kept = r; read = here; slot = refl; positive = ground arith; still_valid = v })
  ]

  -- Take a valid database that has a sandbox. When a call under a maximum from 1 to 2 ^ 32 - 1 gave
  -- this sandbox a slot, be it a new one or the one it had, a further call for it, at any time and
  -- under any maximum above 0, returns the same slot and changes nothing.
  pub assign_twice :
      (later : ℤ) (later_max : ℕ)
      → 0 < later_max
      → assign_sandbox_network_slot later id later_max db' ≡ (ok s, db')
  assign_twice later later_max later_pos =
      keeps_slot later id s later_max db' assigned-HasRow later_pos
