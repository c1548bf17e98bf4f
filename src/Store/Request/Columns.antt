-- ===== src/Store/Request/Columns.antt =====
-- The audit trail under requests on the other columns of a sandbox: slots and digests.

use novita_box.Common.{
  ℕ, suc, ◌≡◌, refl, inl, inr, String, Bool, Option, none, some, str_eq, ltb, Bool-cases, nat_eq,
  ◌==◌, ◌&&◌,
}
use novita_box.Common.Int.{ℤ}
use novita_box.Store.Table.{find, update, affected, is_unique}
use novita_box.Store.Records.{State, SandboxRecord, Db, slot_key}
use novita_box.Store.Sandbox.{
  has_id, first_free, used_slots, take_slot, assign_row, write_slot, assign_sandbox_network_slot,
  if_affected,
}
use novita_box.Store.Request.Audit.{IsAudited, IsAudited-same}
use novita_box.Store.Request.Moves.{state_in-update}

-- Requests on the columns of a sandbox other than its state.
pub if_affected-IsAudited :
    (n : ℕ) (id : String) (s t : State) (db db' : Db)
    → IsAudited id s t db
    → IsAudited id s t db'
    → IsAudited id s t (if_affected n db db').1
if_affected-IsAudited n id s t db db' a a' = elim (Bool-cases (n == 0)) [
  | inl absent ↦ rw absent a
  | inr found ↦ rw found a'
]

pub update-IsAudited :
    (p : SandboxRecord → Bool) (f : SandboxRecord → SandboxRecord) (id : String) (s t : State)
    (db : Db)
    → ((r : SandboxRecord) → ((f r).id ≡ r.id) × ((f r).state ≡ r.state))
    → IsAudited id s t db
    → IsAudited id s t (record db { sandboxes = update p f db.sandboxes })
update-IsAudited p f id s t db h a =
    IsAudited-same id s t db _ a (state_in-update id p f db.sandboxes h) refl refl

write_slot-IsAudited :
    (now : ℤ) (j id : String) (slot : ℕ) (s t : State) (db : Db)
    → IsAudited id s t db
    → IsAudited id s t (write_slot now j slot db).1
unfolding write_slot
write_slot-IsAudited now j id slot s t db a =
    let p = λ (r : SandboxRecord). str_eq r.id j && r.network_slot == 0 in
    let f = λ (r : SandboxRecord). record r { network_slot = slot; updated_at = now } in
    let written = update-IsAudited p f id s t db (λ r. (refl, refl)) a in
    elim (Bool-cases (is_unique nat_eq slot_key (update p f db.sandboxes))) [
      | inr clash ↦ rw clash a
      | inl fits ↦ rw fits (elim (Bool-cases (affected p db.sandboxes == 0)) [
        | inl absent ↦ rw absent a
        | inr found ↦ rw found written
      ])
    ]

take_slot-IsAudited :
    (now : ℤ) (j id : String) (slot : Option ℕ) (s t : State) (db : Db)
    → IsAudited id s t db
    → IsAudited id s t (take_slot now j slot db).1
take_slot-IsAudited now j id none s t db a = a
take_slot-IsAudited now j id (some slot) s t db a = elim (Bool-cases (slot == 0)) [
  | inl full ↦ rw full a
  | inr free ↦ rw free (write_slot-IsAudited now j id slot s t db a)
]

assign_row-IsAudited :
    (now : ℤ) (j id : String) (max_slot : ℕ) (s t : State) (db : Db) (row : Option SandboxRecord)
    → IsAudited id s t db
    → IsAudited id s t (assign_row now j max_slot db row).1
assign_row-IsAudited now j id max_slot s t db none a = a
assign_row-IsAudited now j id max_slot s t db (some r) a =
    elim (Bool-cases (ltb 0 r.network_slot)) [
      | inl has ↦ rw has a
      | inr has_none ↦ rw has_none (
          take_slot-IsAudited now j id
            (first_free (suc max_slot) 1 max_slot (used_slots db.sandboxes)) s t db a)
    ]

pub assign_sandbox_network_slot-IsAudited :
    (now : ℤ) (j id : String) (max_slot : ℕ) (s t : State) (db : Db)
    → IsAudited id s t db
    → IsAudited id s t (assign_sandbox_network_slot now j max_slot db).1
unfolding assign_sandbox_network_slot
assign_sandbox_network_slot-IsAudited now j id max_slot s t db a =
    elim (Bool-cases (max_slot == 0)) [
      | inl bad ↦ rw bad a
      | inr fine ↦
          rw fine (assign_row-IsAudited now j id max_slot s t db (find (has_id j) db.sandboxes) a)
    ]
