-- ===== src/Store/Build.antt =====
-- internal/storage/store/sqlite/template_build.go
pub mod Latest
use mathlib.Core.Option
use novita_box.Common.{
  String, Bool, ◌&&◌, Option, some, List, ◌∷◌, str_eq, if◌then◌else◌, Result, ok, err, text_eq,
}
use novita_box.Common.Int.{ℤ}
use novita_box.Store.Table.{find, select, update, affected, is_unique}
use novita_box.Store.Order.{order_by, newest_first, limit_one}
use novita_box.Store.Records.{
  StoreError, unique_failed, TemplateBuildStatus, status_eq, TemplateBuildRecord, Db, Tx,
}
use novita_box.Store.Sandbox.{one_row, if_affected}
use novita_box.Store.Artifact.Images.{fill_record_times}
use novita_box.Store.Artifact.Templates.{of_template}

unfoldable pub build_row : ℤ → TemplateBuildRecord → TemplateBuildRecord
unfolding fill_record_times
build_row now r =
    let times = fill_record_times now r.created_at r.updated_at in
    record r { created_at = times.created_at; updated_at = times.updated_at }

unfoldable pub create_template_build : ℤ → TemplateBuildRecord → Db → Tx (Unit {0})
create_template_build now r db =
    let rows = build_row now r ∷ db.builds in
    if is_unique text_eq (λ (x : TemplateBuildRecord). some x.id) rows
    then (ok tt, record db { builds = rows })
    else (err unique_failed, db)

unfoldable pub get_template_build : String → String → Db → Result StoreError TemplateBuildRecord
get_template_build template_id build_id db =
    one_row (λ r. r)
      (find (λ (b : TemplateBuildRecord). str_eq b.template_id template_id && str_eq b.id build_id)
        db.builds)

abbrev pub newest_build : TemplateBuildRecord → TemplateBuildRecord → Bool
newest_build =
    newest_first (λ (r : TemplateBuildRecord). r.created_at) (λ (r : TemplateBuildRecord). r.id)

unfoldable pub list_template_builds : String → Db → List TemplateBuildRecord
list_template_builds template_id db =
    order_by newest_build (select (of_template template_id) db.builds)

unfoldable pub get_latest_template_build : String → Db → Result StoreError TemplateBuildRecord
get_latest_template_build template_id db =
    one_row (λ r. r)
      (limit_one (order_by newest_build (select (of_template template_id) db.builds)))

abbrev pub has_status : String → String → TemplateBuildStatus → TemplateBuildRecord → Bool
has_status template_id build_id from b =
    str_eq b.template_id template_id && str_eq b.id build_id && status_eq b.status from

unfoldable pub update_template_build_status :
    ℤ → String → String → TemplateBuildStatus → TemplateBuildStatus → Db → Tx (Unit {0})
update_template_build_status now template_id build_id from to db =
    if_affected (affected (has_status template_id build_id from) db.builds) db (record db {
      builds =
          update (has_status template_id build_id from)
            (λ r. record r { status = to; updated_at = now }) db.builds;
    })
