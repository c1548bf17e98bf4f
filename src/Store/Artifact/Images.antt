-- ===== src/Store/Artifact/Images.antt =====
-- Images, and what the three kinds of artifact share: the times of a new record, and deletion by key.
use novita_box.Common.{
  String, Bool, List, ◌∷◌, some, str_eq, if◌then◌else◌, Result, ok, err, text_eq,
}
use novita_box.Common.Int.{ℤ, is_nonpos}
use novita_box.Store.Table.{find, delete, affected, is_unique}
use novita_box.Store.Order.{order_by, newest_first}
use novita_box.Store.Records.{StoreError, unique_failed, ImageRecord, Db, Tx}
use novita_box.Store.Sandbox.{one_row, if_affected}

pub record RecordTimes : Type 0 where
  pub created_at : ℤ
  pub updated_at : ℤ

unfoldable pub fill_record_times : ℤ → ℤ → ℤ → RecordTimes
fill_record_times now created_at updated_at =
    let created = if is_nonpos created_at then now else created_at in
    record {
      created_at = created;
      updated_at = if is_nonpos updated_at then created else updated_at;
    }

unfoldable pub image_row : ℤ → ImageRecord → ImageRecord
unfolding fill_record_times
image_row now r =
    let times = fill_record_times now r.created_at r.updated_at in
    record r { created_at = times.created_at; updated_at = times.updated_at }

unfoldable pub create_image : ℤ → ImageRecord → Db → Tx (Unit {0})
create_image now r db =
    let rows = image_row now r ∷ db.images in
    if is_unique text_eq (λ (x : ImageRecord). some x.id) rows
    then (ok tt, record db { images = rows })
    else (err unique_failed, db)

abbrev pub has_image_id : String → ImageRecord → Bool
has_image_id id r = str_eq r.id id

unfoldable pub get_image : String → Db → Result StoreError ImageRecord
get_image id db = one_row (λ r. r) (find (has_image_id id) db.images)

unfoldable pub list_images : Db → List ImageRecord
list_images db =
    order_by (newest_first (λ (r : ImageRecord). r.created_at) (λ (r : ImageRecord). r.id))
      db.images

-- deleteByID, for each of the two tables that it is called on
unfoldable pub delete_image : String → Db → Tx (Unit {0})
delete_image id db =
    if_affected (affected (has_image_id id) db.images) db
      (record db { images = delete (has_image_id id) db.images })
