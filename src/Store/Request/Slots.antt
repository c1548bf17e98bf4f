-- ===== src/Store/Request/Slots.antt =====
-- No two sandboxes hold one network slot, whatever requests the store has had.
use novita_box.Common.{
  ◌<◌, ◌≡◌, ◌≢◌, String, true, false, some, List, [], ◌∷◌, arith, str_eq, eq_iff, nat_eq,
}
use novita_box.Store.Table.{find, holds, is_unique}
use novita_box.Store.Records.{SandboxRecord, empty_db, slot_key}
use novita_box.Store.Sandbox.{has_id}
use novita_box.Store.Artifact.Templates.{Json}
use novita_box.Store.Request.{Request, after_all}
use novita_box.Store.Request.Validity.{after_all-IsValid, empty_db-IsValid}

-- A row that a query returns stands in the index.
found-holds :
    (id : String) (rows : List SandboxRecord) (r : SandboxRecord)
    → find (has_id id) rows ≡ some r
    → 0 < r.network_slot
    → holds nat_eq slot_key (some r.network_slot) rows ≡ true
unfolding find holds
found-holds id [] r h pos = ground arith
found-holds id (x ∷ rows) r h pos = ground (arith, found-holds id rows r)

slots-distinct :
    (a b : String) (rows : List SandboxRecord) (ra rb : SandboxRecord)
    → is_unique nat_eq slot_key rows ≡ true
    → find (has_id a) rows ≡ some ra
    → find (has_id b) rows ≡ some rb
    → str_eq a b ≡ false
    → 0 < ra.network_slot
    → ra.network_slot ≢ rb.network_slot
unfolding find is_unique
slots-distinct a b [] ra rb u ha hb ne pos same = ground arith
slots-distinct a b (x ∷ rows) ra rb u ha hb ne pos same = ground (
  arith,
  eq_iff x.id a,
  eq_iff x.id b,
  eq_iff a b,
  found-holds a rows ra,
  found-holds b rows rb,
  slots-distinct a b rows ra rb,
)

-- From an empty database, after any requests, successful or not, two sandboxes with different ids
-- never have the same network slot, unless it is 0, which means none.
pub network_slots-distinct :
    {M : Type 0} (json : Json M) (qs : List (Request M)) (a b : String) (ra rb : SandboxRecord)
    → let db = after_all json qs empty_db in
      find (has_id a) db.sandboxes ≡ some ra
      → find (has_id b) db.sandboxes ≡ some rb
      → a ≢ b
      → 0 < ra.network_slot
      → ra.network_slot ≢ rb.network_slot
network_slots-distinct json qs a b ra rb ha hb ne pos =
    slots-distinct a b (after_all json qs empty_db).sandboxes ra rb
      (after_all-IsValid json qs empty_db empty_db-IsValid).slots ha hb (ground (arith, eq_iff a b))
      pos
