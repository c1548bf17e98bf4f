-- ===== src/Store/Sandbox.antt =====
-- internal/storage/store/sqlite/sandbox.go and transition.go. `now` is the reading of the clock.
-- A transaction that returns an error is rolled back: the database comes back as it was.
pub mod SlotSearch
pub mod Assign
pub mod Repeat
use novita_box.Common.{
  ℕ, zero, suc, ◌+◌, ◌%◌, ◌^◌, String, Bool, ◌&&◌, Option, none, some, List, [], ◌∷◌, ◌++◌, map,
  any, str_eq, ◌==◌, ltb, leb, if◌then◌else◌, Result, ok, err, text_eq, nat_eq,
}
use novita_box.Common.Int.{ℤ}
use novita_box.Store.Table.{find, select, update, delete, affected, is_unique}
use novita_box.Store.Order.{order_by, newest_first}
use novita_box.Store.Records.{
  State, state_eq, StoreError, not_found, unique_failed, max_slot_zero, no_slots, out_of_fuel,
  is_zero, SandboxRecord, TransitionRecord, Db, Tx, sandbox_key, slot_key,
}

unfoldable pub normalize_rootfs_provider : String → String
normalize_rootfs_provider provider = if str_eq provider "" then "directory" else provider

abbrev pub has_id : String → SandboxRecord → Bool
has_id id r = str_eq r.id id

-- The row that CreateSandbox writes: missing times are filled in.
unfoldable pub sandbox_row : ℤ → SandboxRecord → SandboxRecord
unfolding normalize_rootfs_provider
sandbox_row now r =
    let created = if is_zero r.created_at then now else r.created_at in
    record r {
      rootfs_provider = normalize_rootfs_provider r.rootfs_provider;
      created_at = created;
      updated_at = if is_zero r.updated_at then created else r.updated_at;
    }

unfoldable pub create_sandbox : ℤ → SandboxRecord → Db → Tx (Unit {0})
create_sandbox now r db =
    let row = sandbox_row now r in
    if is_unique text_eq sandbox_key (row ∷ db.sandboxes)
      && is_unique nat_eq slot_key (row ∷ db.sandboxes)
    then (ok tt, record db { sandboxes = row ∷ db.sandboxes })
    else (err unique_failed, db)

unfoldable pub scan_sandbox : SandboxRecord → SandboxRecord
unfolding normalize_rootfs_provider
scan_sandbox r = record r { rootfs_provider = normalize_rootfs_provider r.rootfs_provider }

-- a query for one row: sql.ErrNoRows becomes ErrNotFound
abbrev pub one_row : {R A : Type 0} → (R → A) → Option R → Result StoreError A
one_row scan none = err not_found
one_row scan (some r) = ok (scan r)

unfoldable pub get_sandbox : String → Db → Result StoreError SandboxRecord
unfolding scan_sandbox
get_sandbox id db = one_row scan_sandbox (find (has_id id) db.sandboxes)

-- an UPDATE or DELETE by key, which reports no row as ErrNotFound
abbrev pub if_affected : ℕ → Db → Db → Tx (Unit {0})
if_affected n db db' = if n == 0 then (err not_found, db) else (ok tt, db')

abbrev pub in_state : String → State → SandboxRecord → Bool
in_state id from r = str_eq r.id id && state_eq r.state from

-- INSERT INTO state_transitions
abbrev pub logged_transition : ℤ → String → State → State → String → Db → TransitionRecord
logged_transition now id from to action db = record {
  id = suc db.last_transition;
  resource_type = "sandbox";
  resource_id = id;
  from_state = from;
  to_state = to;
  action = action;
  created_at = now;
}

abbrev pub transitioned : ℤ → String → State → State → String → Db → Db
transitioned now id from to action db = record db {
  sandboxes =
      update (in_state id from) (λ r. record r { state = to; updated_at = now }) db.sandboxes;
  transitions = db.transitions ++ logged_transition now id from to action db ∷ [];
  last_transition = suc db.last_transition;
}

unfoldable pub update_sandbox_state : ℤ → String → State → State → String → Db → Tx (Unit {0})
update_sandbox_state now id from to action db =
    if_affected (affected (in_state id from) db.sandboxes) db
      (transitioned now id from to action db)

-- SELECT network_slot FROM sandboxes WHERE network_slot > 0
unfoldable pub used_slots : List SandboxRecord → List ℕ
used_slots rows =
    map (λ (r : SandboxRecord). r.network_slot) (select (λ r. ltb 0 r.network_slot) rows)

abbrev pub contains : List ℕ → ℕ → Bool
contains used s = any (λ u. u == s) used

-- `for candidate := uint32(1); candidate <= maxSlot; candidate++`: the first candidate that is not
-- used, or 0. `none` means that the fuel ran out.
unfoldable pub first_free : ℕ → ℕ → ℕ → List ℕ → Option ℕ
first_free zero candidate max_slot used = none
first_free (suc fuel) candidate max_slot used =
    let rest = first_free fuel ((candidate + 1) % 2 ^ 32) max_slot used in
    if leb candidate max_slot
    then (if contains used candidate then rest else some candidate)
    else some 0

-- UPDATE sandboxes SET network_slot = slot WHERE sandbox_id = id AND network_slot = 0, under the
-- unique index.
unfoldable pub write_slot : ℤ → String → ℕ → Db → Tx ℕ
write_slot now id slot db =
    let unassigned = λ (r : SandboxRecord). str_eq r.id id && r.network_slot == 0 in
    let rows =
      update unassigned (λ r. record r { network_slot = slot; updated_at = now }) db.sandboxes in
    if is_unique nat_eq slot_key rows
    then (if affected unassigned db.sandboxes == 0
        then (err not_found, db)
        else (ok slot, record db { sandboxes = rows }))
    else (err unique_failed, db)

abbrev pub take_slot : ℤ → String → Option ℕ → Db → Tx ℕ
take_slot now id none db = (err out_of_fuel, db)
take_slot now id (some slot) db =
    if slot == 0 then (err no_slots, db) else write_slot now id slot db

abbrev pub assign_row : ℤ → String → ℕ → Db → Option SandboxRecord → Tx ℕ
assign_row now id max_slot db none = (err not_found, db)
assign_row now id max_slot db (some r) =
    if ltb 0 r.network_slot
    then (ok r.network_slot, db)
    else take_slot now id (first_free (suc max_slot) 1 max_slot (used_slots db.sandboxes)) db

unfoldable pub assign_sandbox_network_slot : ℤ → String → ℕ → Db → Tx ℕ
assign_sandbox_network_slot now id max_slot db =
    if max_slot == 0
    then (err max_slot_zero, db)
    else assign_row now id max_slot db (find (has_id id) db.sandboxes)

unfoldable pub release_sandbox_network_slot : ℤ → String → Db → Tx (Unit {0})
release_sandbox_network_slot now id db =
    if_affected (affected (has_id id) db.sandboxes) db (record db {
      sandboxes =
          update (has_id id) (λ r. record r { network_slot = 0; updated_at = now }) db.sandboxes;
    })

unfoldable pub update_sandbox_rootfs_digest : ℤ → String → String → Db → Tx (Unit {0})
update_sandbox_rootfs_digest now id digest db =
    if_affected (affected (has_id id) db.sandboxes) db (record db {
      sandboxes =
          update (has_id id) (λ r. record r { rootfs_source_digest = digest; updated_at = now })
            db.sandboxes;
    })

unfoldable pub delete_sandbox : String → Db → Tx (Unit {0})
delete_sandbox id db =
    if_affected (affected (has_id id) db.sandboxes) db
      (record db { sandboxes = delete (has_id id) db.sandboxes })

unfoldable pub list_sandboxes : Db → List SandboxRecord
list_sandboxes db = map scan_sandbox (
    order_by (newest_first (λ (r : SandboxRecord). r.created_at) (λ (r : SandboxRecord). r.id))
      db.sandboxes)
