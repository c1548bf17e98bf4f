-- ===== src/Store/Sandbox/Assign.antt =====
-- AssignSandboxNetworkSlot: the whole transaction, under the primary key and the unique index.
use novita_box.Common.{
  ℕ, ◌^◌, ◌≤◌, ◌<◌, ◌≡◌, ◌≢◌, refl, ◌∙◌, ◌⊎◌, inl, inr, Bool, true, false, ◌&&◌, none, some, String,
  List, [], ◌∷◌, ok, err, arith, str_eq, eq_iff, ◌==◌, text_eq, nat_eq,
}
use novita_box.Common.Int.{ℤ}
use novita_box.Store.Table.{find, select, update, affected, holds, is_unique}
use novita_box.Store.Table.Laws.{is_unique-update}
use novita_box.Store.Records.{
  SandboxRecord, Db, IsValid, IsValid-sandboxes, no_slots, sandbox_key, slot_key,
}
use novita_box.Store.Sandbox.{has_id, contains, used_slots, write_slot, assign_sandbox_network_slot}
use novita_box.Store.Sandbox.SlotSearch.{first_free_lem}

abbrev unassigned : String → SandboxRecord → Bool
unassigned id r = str_eq r.id id && r.network_slot == 0

abbrev with_slot : ℤ → ℕ → SandboxRecord → SandboxRecord
with_slot now s r = record r { network_slot = s; updated_at = now }

-- A row without a slot clashes with none.
holds-none : (rows : List SandboxRecord) → holds nat_eq slot_key none rows ≡ false
unfolding holds
holds-none [] = refl
holds-none (r ∷ rows) = ground (arith, holds-none rows)

-- A slot is in the index exactly when the query of the used slots returns it.
holds-used_slots :
    (s : ℕ) (rows : List SandboxRecord)
    → 0 < s
    → holds nat_eq slot_key (some s) rows ≡ contains (used_slots rows) s
unfolding holds used_slots select
holds-used_slots s [] pos = refl
holds-used_slots s (r ∷ rows) pos = ground (arith, holds-used_slots s rows pos)

-- No row but one has a given id.
update-absent :
    (id : String) (f : SandboxRecord → SandboxRecord) (rows : List SandboxRecord)
    → holds text_eq sandbox_key (some id) rows ≡ false
    → update (unassigned id) f rows ≡ rows
unfolding holds update
update-absent id f [] h = refl
update-absent id f (r ∷ rows) h = ground (arith, update-absent id f rows)

holds-write :
    (now : ℤ) (id : String) (s t : ℕ) (rows : List SandboxRecord)
    → 0 < s
    → s ≢ t
    → holds nat_eq slot_key (some t) rows ≡ false
    → holds nat_eq slot_key (some t) (update (unassigned id) (with_slot now s) rows) ≡ false
unfolding holds update
holds-write now id s t [] pos ne h = refl
holds-write now id s t (r ∷ rows) pos ne h = ground (arith, holds-write now id s t rows pos ne)

-- Writing a slot that no row has keeps the index unique.
is_unique-write :
    (now : ℤ) (id : String) (s : ℕ) (rows : List SandboxRecord)
    → 0 < s
    → contains (used_slots rows) s ≡ false
    → is_unique text_eq sandbox_key rows ≡ true
    → is_unique nat_eq slot_key rows ≡ true
    → is_unique nat_eq slot_key (update (unassigned id) (with_slot now s) rows) ≡ true
unfolding is_unique update used_slots select
is_unique-write now id s [] pos free ids slots = refl
is_unique-write now id s (r ∷ rows) pos free ids slots = ground (
  arith,
  eq_iff r.id id,
  update-absent id (with_slot now s) rows,
  holds-used_slots s rows,
  holds-none rows,
  holds-none (update (unassigned id) (with_slot now s) rows),
  holds-write now id s r.network_slot rows,
  is_unique-write now id s rows,
)

-- The row that was read is matched by the UPDATE, and is the first with its id after it.
affected-unassigned :
    (id : String) (rows : List SandboxRecord) (r : SandboxRecord)
    → find (has_id id) rows ≡ some r
    → r.network_slot ≡ 0
    → 0 < affected (unassigned id) rows
unfolding find affected
affected-unassigned id [] r h e = ground arith
affected-unassigned id (x ∷ rows) r h e = ground (arith, affected-unassigned id rows r)

find-write :
    (now : ℤ) (id : String) (s : ℕ) (rows : List SandboxRecord) (r : SandboxRecord)
    → find (has_id id) rows ≡ some r
    → r.network_slot ≡ 0
    → find (has_id id) (update (unassigned id) (with_slot now s) rows) ≡ some (with_slot now s r)
unfolding find update
find-write now id s [] r h e = ground arith
find-write now id s (x ∷ rows) r h e = ground (arith, find-write now id s rows r)

-- The rows of other sandboxes stay as they were.
find-write_other :
    (now : ℤ) (id j : String) (s : ℕ) (rows : List SandboxRecord)
    → id ≢ j
    → find (has_id j) (update (unassigned id) (with_slot now s) rows) ≡ find (has_id j) rows
unfolding find update
find-write_other now id j s [] ne = refl
find-write_other now id j s (x ∷ rows) ne =
    ground (arith, eq_iff x.id id, eq_iff x.id j, find-write_other now id j s rows ne)

is_unique-write_id :
    (now : ℤ) (id : String) (s : ℕ) (rows : List SandboxRecord)
    → is_unique text_eq sandbox_key (update (unassigned id) (with_slot now s) rows)
      ≡ is_unique text_eq sandbox_key rows
is_unique-write_id now id s rows =
    is_unique-update text_eq sandbox_key (unassigned id) (with_slot now s) rows (λ r. refl)

-- What the transaction does to the database when it takes slot `s`.
pub record IsAssigned (now : ℤ) (id : String) (s : ℕ) (r : SandboxRecord) (db db' : Db)
    : Type 0 where
  pub valid : IsValid db'
  pub row : find (has_id id) db'.sandboxes ≡ some (record r { network_slot = s; updated_at = now })
  pub others : (j : String) → id ≢ j → find (has_id j) db'.sandboxes ≡ find (has_id j) db.sandboxes
  pub transitions : db'.transitions ≡ db.transitions

write_slot-IsAssigned :
    (now : ℤ) (id : String) (s : ℕ) (db : Db) (r : SandboxRecord)
    → IsValid db
    → find (has_id id) db.sandboxes ≡ some r
    → r.network_slot ≡ 0
    → 0 < s
    → contains (used_slots db.sandboxes) s ≡ false
    → (db' : Db) × (write_slot now id s db ≡ (ok s, db')) × IsAssigned now id s r db db'
unfolding write_slot
write_slot-IsAssigned now id s db r v h e pos free =
    let rows = update (unassigned id) (with_slot now s) db.sandboxes in
    let unique = is_unique-write now id s db.sandboxes pos free v.sandbox_ids v.slots in
    (
      record db { sandboxes = rows },
      rw unique (ground (arith, affected-unassigned id db.sandboxes r h e)),
      record {
        valid =
            IsValid-sandboxes rows db.transitions db.last_transition v
              (is_unique-write_id now id s db.sandboxes ∙ v.sandbox_ids) unique;
        row = find-write now id s db.sandboxes r h e;
        others = λ j ne. find-write_other now id j s db.sandboxes ne;
        transitions = refl;
      },
    )

-- In a valid database, for a sandbox without a slot and a uint32 maximum above 0, the transaction
-- either finds every slot from 1 to the maximum used, and returns the error and the database
-- unchanged, or returns the least slot that no sandbox has, writes it to this sandbox's row alone,
-- and the database is valid again.
pub assign_sandbox_network_slot-cases :
    (now : ℤ) (id : String) (max_slot : ℕ) (db : Db) (r : SandboxRecord)
    → IsValid db
    → 0 < max_slot
    → max_slot < 2 ^ 32
    → find (has_id id) db.sandboxes ≡ some r
    → r.network_slot ≡ 0
    → ((assign_sandbox_network_slot now id max_slot db ≡ (err no_slots, db))
        × ((k : ℕ) → 0 < k → k ≤ max_slot → contains (used_slots db.sandboxes) k ≡ true))
      ⊎ ((s : ℕ) × (db' : Db) × (assign_sandbox_network_slot now id max_slot db ≡ (ok s, db'))
          × (0 < s)
          × (s ≤ max_slot)
          × (contains (used_slots db.sandboxes) s ≡ false)
          × ((k : ℕ) → 0 < k → k < s → contains (used_slots db.sandboxes) k ≡ true)
          × IsAssigned now id s r db db')
unfolding assign_sandbox_network_slot
assign_sandbox_network_slot-cases now id max_slot db r v pos small h e =
    elim (first_free_lem max_slot db.sandboxes pos small) [
      | inl (found, full) ↦ inl (ground arith, full)
      | inr (s, found, sp, le, free, least) ↦
          let (db', written, assigned) = write_slot-IsAssigned now id s db r v h e sp free in
          inr (s, db', ground arith, sp, le, free, least, assigned)
    ]
