-- ===== src/Store/Artifact/Snapshots.antt =====
-- Snapshots.
use novita_box.Common.{
  String, Bool, List, ◌∷◌, some, str_eq, if◌then◌else◌, Result, ok, err, text_eq,
}
use novita_box.Common.Int.{ℤ}
use novita_box.Store.Table.{find, select, delete, affected, is_unique}
use novita_box.Store.Order.{order_by, newest_first}
use novita_box.Store.Records.{StoreError, unique_failed, SnapshotRecord, Db, Tx}
use novita_box.Store.Sandbox.{one_row, if_affected}
use novita_box.Store.Artifact.Images.{fill_record_times}

unfoldable pub snapshot_row : ℤ → SnapshotRecord → SnapshotRecord
unfolding fill_record_times
snapshot_row now r =
    let times = fill_record_times now r.created_at r.updated_at in
    record r { created_at = times.created_at; updated_at = times.updated_at }

unfoldable pub create_snapshot : ℤ → SnapshotRecord → Db → Tx (Unit {0})
create_snapshot now r db =
    let rows = snapshot_row now r ∷ db.snapshots in
    if is_unique text_eq (λ (x : SnapshotRecord). some x.id) rows
    then (ok tt, record db { snapshots = rows })
    else (err unique_failed, db)

abbrev pub has_snapshot_id : String → SnapshotRecord → Bool
has_snapshot_id id r = str_eq r.id id

unfoldable pub get_snapshot : String → Db → Result StoreError SnapshotRecord
get_snapshot id db = one_row (λ r. r) (find (has_snapshot_id id) db.snapshots)

abbrev pub of_sandbox : String → SnapshotRecord → Bool
of_sandbox sandbox_id r = str_eq r.sandbox_id sandbox_id

unfoldable pub list_snapshots_by_sandbox : String → Db → List SnapshotRecord
list_snapshots_by_sandbox sandbox_id db =
    order_by (newest_first (λ (r : SnapshotRecord). r.created_at) (λ (r : SnapshotRecord). r.id))
      (select (of_sandbox sandbox_id) db.snapshots)

unfoldable pub delete_snapshot : String → Db → Tx (Unit {0})
delete_snapshot id db =
    if_affected (affected (has_snapshot_id id) db.snapshots) db
      (record db { snapshots = delete (has_snapshot_id id) db.snapshots })
