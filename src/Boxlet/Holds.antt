-- ===== src/Boxlet/Holds.antt =====
-- What one sandbox's row says, and what each change of the store that a handler makes does to it.
use novita_box.Common.{
  ℕ, ◌^◌, ◌≤◌, ◌<◌, ◌≡◌, refl, String, Bool, true, false, some, List, [], ◌∷◌, arith, ok, err, ◌==◌,
  eq_iff, ◌⊎◌, inl, inr, ap,
}
use mathlib.Core.Path.{subst}
use text.Mathlib.TextPositions.{eq_refl}
use novita_box.Common.Int.{ℤ}
use novita_box.Store.Table.{find, update, affected}
use novita_box.Store.Table.Laws.{find-satisfies}
use novita_box.Store.Records.{State, state_eq, Tx, SandboxRecord, Db, IsValid, no_slots}
use novita_box.Store.Sandbox.{
  has_id, in_state, transitioned, get_sandbox, scan_sandbox, update_sandbox_state,
  assign_sandbox_network_slot, release_sandbox_network_slot, update_sandbox_rootfs_digest,
}
use novita_box.Store.Sandbox.Assign.{assign_sandbox_network_slot-cases}
use novita_box.Store.Request.Validity.{
  update_sandbox_state-IsValid, release_sandbox_network_slot-IsValid,
  update_sandbox_rootfs_digest-IsValid,
}

-- In a valid database, the sandbox is in state `st` and has slot `s`.
pub record Holds (id : String) (st : State) (s : ℕ) (db : Db) : Type 0 where
  pub valid : IsValid db
  pub row : SandboxRecord
  pub here : find (has_id id) db.sandboxes ≡ some row
  pub state : row.state ≡ st
  pub slot : row.network_slot ≡ s

-- An UPDATE that matches the first row with an id changes that row, if it keeps ids.
find-update_first :
    (id : String) (p : SandboxRecord → Bool) (f : SandboxRecord → SandboxRecord)
    (rows : List SandboxRecord) (r : SandboxRecord)
    → ((x : SandboxRecord) → (f x).id ≡ x.id)
    → find (has_id id) rows ≡ some r
    → p r ≡ true
    → ((x : SandboxRecord) → p x ≡ true → has_id id x ≡ true)
    → find (has_id id) (update p f rows) ≡ some (f r)
unfolding find update
find-update_first id p f [] r keeps h hit only = ground arith
find-update_first id p f (x ∷ rows) r keeps h hit only =
    ground (arith, keeps x, only x, find-update_first id p f rows r keeps)

affected-first :
    (id : String) (p : SandboxRecord → Bool) (rows : List SandboxRecord) (r : SandboxRecord)
    → find (has_id id) rows ≡ some r
    → p r ≡ true
    → 0 < affected p rows
unfolding find affected
affected-first id p [] r h hit = ground arith
affected-first id p (x ∷ rows) r h hit = ground (arith, affected-first id p rows r)

state_eq_refl : (s : State) → state_eq s s ≡ true
unfolding state_eq
state_eq_refl s = ground arith

ap-IsValid : {r : Tx (Unit {0})} {db' : Db} → r ≡ (ok tt, db') → IsValid r.1 → IsValid db'
ap-IsValid e v = subst IsValid (ap (λ (t : Tx (Unit {0})). t.1) e) v

module _ {id : String} {st : State} {s : ℕ} {db : Db} (h : Holds id st s db) where
  pub row-id : h.row.id ≡ id
  row-id = ground (arith, eq_iff h.row.id id, find-satisfies (has_id id) db.sandboxes h.here)

  pub get_sandbox-Holds : get_sandbox id db ≡ ok (scan_sandbox h.row)
  unfolding get_sandbox
  get_sandbox-Holds = rw h.here refl

  is_in_state : in_state id st h.row ≡ true
  is_in_state = rw (row-id, h.state) (ground (arith, eq_refl id, state_eq_refl st))

  found-Holds :
      (p : SandboxRecord → Bool) (f : SandboxRecord → SandboxRecord)
      → ((x : SandboxRecord) → (f x).id ≡ x.id)
      → p h.row ≡ true
      → ((x : SandboxRecord) → p x ≡ true → has_id id x ≡ true)
      → ((affected p db.sandboxes == 0) ≡ false)
        × (find (has_id id) (update p f db.sandboxes) ≡ some (f h.row))
  found-Holds p f keeps hit only = (
    ground (arith, affected-first id p db.sandboxes h.row h.here hit),
    find-update_first id p f db.sandboxes h.row keeps h.here hit only,
  )

  pub update_sandbox_state-Holds :
      (now : ℤ) (to : State) (action : String)
      → (db' : Db) × (update_sandbox_state now id st to action db ≡ (ok tt, db'))
        × Holds id to s db'
  unfolding update_sandbox_state
  update_sandbox_state-Holds now to action =
      let f = λ (r : SandboxRecord). record r { state = to; updated_at = now } in
      let (some_row, row) =
        found-Holds (in_state id st) f (λ x. refl) is_in_state (λ x m. ground arith) in
      let done : update_sandbox_state now id st to action db
          ≡ (ok tt, transitioned now id st to action db) =
        rw some_row refl in
      (
        transitioned now id st to action db,
        done,
        record {
          valid = ap-IsValid done (update_sandbox_state-IsValid now id st to action db h.valid);
          row = f h.row;
          here = row;
          state = refl;
          slot = h.slot;
        },
      )

  pub release_sandbox_network_slot-Holds :
      (now : ℤ)
      → (db' : Db) × (release_sandbox_network_slot now id db ≡ (ok tt, db')) × Holds id st 0 db'
  unfolding release_sandbox_network_slot
  release_sandbox_network_slot-Holds now =
      let f = λ (r : SandboxRecord). record r { network_slot = 0; updated_at = now } in
      let (some_row, row) =
        found-Holds (has_id id) f (λ x. refl) (find-satisfies (has_id id) db.sandboxes h.here)
          (λ x m. m) in
      let db' = record db { sandboxes = update (has_id id) f db.sandboxes } in
      let done : release_sandbox_network_slot now id db ≡ (ok tt, db') = rw some_row refl in
      (
        db',
        done,
        record {
          valid = ap-IsValid done (release_sandbox_network_slot-IsValid now id db h.valid);
          row = f h.row;
          here = row;
          state = h.state;
          slot = refl;
        },
      )

  pub update_sandbox_rootfs_digest-Holds :
      (now : ℤ) (digest : String)
      → (db' : Db) × (update_sandbox_rootfs_digest now id digest db ≡ (ok tt, db'))
        × Holds id st s db'
  unfolding update_sandbox_rootfs_digest
  update_sandbox_rootfs_digest-Holds now digest =
      let f = λ (r : SandboxRecord). record r { rootfs_source_digest = digest; updated_at = now } in
      let (some_row, row) =
        found-Holds (has_id id) f (λ x. refl) (find-satisfies (has_id id) db.sandboxes h.here)
          (λ x m. m) in
      let db' = record db { sandboxes = update (has_id id) f db.sandboxes } in
      let done : update_sandbox_rootfs_digest now id digest db ≡ (ok tt, db') = rw some_row refl in
      (
        db',
        done,
        record {
          valid = ap-IsValid done (update_sandbox_rootfs_digest-IsValid now id digest db h.valid);
          row = f h.row;
          here = row;
          state = h.state;
          slot = h.slot;
        },
      )

-- A sandbox without a slot gets one, or the error leaves it as it is.
pub assign_sandbox_network_slot-Holds :
    {id : String} {st : State} {db : Db} (now : ℤ) (max_slot : ℕ)
    → Holds id st 0 db
    → 0 < max_slot
    → max_slot < 2 ^ 32
    → (assign_sandbox_network_slot now id max_slot db ≡ (err no_slots, db))
      ⊎ ((s : ℕ) × (db' : Db) × (assign_sandbox_network_slot now id max_slot db ≡ (ok s, db'))
          × (0 < s)
          × (s ≤ max_slot)
          × Holds id st s db')
assign_sandbox_network_slot-Holds {id} {db = db} now max_slot h pos small =
    elim (assign_sandbox_network_slot-cases now id max_slot db h.row h.valid pos small h.here
      h.slot) [
        | inl (none_left, used) ↦ inl none_left
        | inr (s, db', got, sp, le, free, least, a) ↦ inr (
          s,
          db',
          got,
          sp,
          le,
          record { valid = a.valid; row = _; here = a.row; state = h.state; slot = refl },
        )
      ]
