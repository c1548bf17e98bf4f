-- ===== src/Store/Artifact/Templates.antt =====
-- Templates: the lists and the map of a record are kept as JSON. encoding/json is the parameter
-- `Json`, where `M` is the type of Go's map[string]string. A nil slice or map is `none`.
pub mod RoundTrip
use novita_box.Common.{
  ℕ, String, Bool, true, false, not, Option, none, some, List, [], ◌∷◌, ◌==◌, str_eq, if◌then◌else◌,
  Result, ok, err, text_eq, or_error, ◌>>=◌,
}
use novita_box.Common.Int.{ℤ, pos, is_nonpos}
use novita_box.Store.Table.{find, delete, affected, is_unique}
use novita_box.Store.Order.{order_by, newest_first}
use novita_box.Store.Records.{
  StoreError, unique_failed, not_found, bad_json, TemplateRow, TemplateBuildRecord, Db, Tx,
}
use novita_box.Store.Artifact.Images.{fill_record_times}

-- json.Marshal and json.Unmarshal at the two types: `none` is an error; a decoded value may be nil.
pub record Json (M : Type 0) : Type 0 where
  pub empty_map : M
  pub marshal_list : List String → Option String
  pub unmarshal_list : String → Option (Option (List String))
  pub marshal_map : M → Option String
  pub unmarshal_map : String → Option (Option M)

pub record TemplateRecord (M : Type 0) : Type 0 where
  pub id : String
  pub rootfs_path : String
  pub memfile_path : String
  pub snapfile_path : String
  pub aliases : Option (List String)
  pub names : Option (List String)
  pub metadata : Option M
  pub is_public : Bool
  pub cpu_count : ℤ
  pub memory_mb : ℤ
  pub created_at : ℤ
  pub updated_at : ℤ

abbrev pub or_empty {ℓ} : {A : Type ℓ} → A → Option A → A
or_empty empty none = empty
or_empty empty (some a) = a

abbrev pub bool_to_int : Bool → ℕ
bool_to_int true = 1
bool_to_int false = 0

abbrev pub insert_template : Db → Result StoreError TemplateRow → Tx (Unit {0})
insert_template db (err e) = (err e, db)
insert_template db (ok row) =
    if is_unique text_eq (λ (x : TemplateRow). some x.id) (row ∷ db.templates)
    then (ok tt, record db { templates = row ∷ db.templates })
    else (err unique_failed, db)

module _ {M : Type 0} (json : Json M) where
  unfoldable pub normalize_template_record : TemplateRecord M → TemplateRecord M
  normalize_template_record r = record r {
    aliases = some (or_empty [] r.aliases);
    names = some (or_empty [] r.names);
    metadata = some (or_empty json.empty_map r.metadata);
    cpu_count = if is_nonpos r.cpu_count then pos 1 else r.cpu_count;
    memory_mb = if is_nonpos r.memory_mb then pos 512 else r.memory_mb;
  }

  unfoldable pub marshal_string_slice : Option (List String) → Option String
  marshal_string_slice values = json.marshal_list (or_empty [] values)

  unfoldable pub marshal_string_map : Option M → Option String
  marshal_string_map values = json.marshal_map (or_empty json.empty_map values)

  -- a decoded nil becomes the empty list
  abbrev decoded : {A : Type 0} → A → Option (Option A) → Option A
  decoded empty none = none
  decoded empty (some v) = some (or_empty empty v)

  unfoldable pub unmarshal_string_slice : String → Option (List String)
  unmarshal_string_slice value =
      if str_eq value "" then some [] else decoded [] (json.unmarshal_list value)

  unfoldable pub unmarshal_string_map : String → Option M
  unmarshal_string_map value =
      if str_eq value ""
      then some json.empty_map
      else decoded json.empty_map (json.unmarshal_map value)

  -- The row that CreateTemplate writes, or the error of an encoding.
  unfoldable pub template_row : ℤ → TemplateRecord M → Result StoreError TemplateRow
  unfolding normalize_template_record marshal_string_slice marshal_string_map fill_record_times
  template_row now given =
      let r = normalize_template_record given in
      let times = fill_record_times now r.created_at r.updated_at in
      do
        aliases ← or_error bad_json (marshal_string_slice r.aliases)
        names ← or_error bad_json (marshal_string_slice r.names)
        metadata ← or_error bad_json (marshal_string_map r.metadata)
        ok (record {
          id = r.id;
          rootfs_path = r.rootfs_path;
          memfile_path = r.memfile_path;
          snapfile_path = r.snapfile_path;
          aliases_json = aliases;
          names_json = names;
          metadata_json = metadata;
          is_public = bool_to_int r.is_public;
          cpu_count = r.cpu_count;
          memory_mb = r.memory_mb;
          created_at = times.created_at;
          updated_at = times.updated_at;
        })

  unfoldable pub create_template : ℤ → TemplateRecord M → Db → Tx (Unit {0})
  create_template now r db = insert_template db (template_row now r)

  unfoldable pub scan_template : TemplateRow → Result StoreError (TemplateRecord M)
  unfolding normalize_template_record unmarshal_string_slice unmarshal_string_map
  scan_template row = do
    aliases ← or_error bad_json (unmarshal_string_slice row.aliases_json)
    names ← or_error bad_json (unmarshal_string_slice row.names_json)
    metadata ← or_error bad_json (unmarshal_string_map row.metadata_json)
    ok (
        normalize_template_record (record {
          id = row.id;
          rootfs_path = row.rootfs_path;
          memfile_path = row.memfile_path;
          snapfile_path = row.snapfile_path;
          aliases = some aliases;
          names = some names;
          metadata = some metadata;
          is_public = not (row.is_public == 0);
          cpu_count = row.cpu_count;
          memory_mb = row.memory_mb;
          created_at = row.created_at;
          updated_at = row.updated_at;
        }))

  unfoldable pub get_template : String → Db → Result StoreError (TemplateRecord M)
  get_template id db =
      or_error not_found (find (λ (r : TemplateRow). str_eq r.id id) db.templates) >>= scan_template

  -- the loop over the rows: the first row that does not decode ends it
  unfoldable pub scan_templates : List TemplateRow → Result StoreError (List (TemplateRecord M))
  scan_templates [] = ok []
  scan_templates (row ∷ rows) = do r ← scan_template row; rs ← scan_templates rows; ok (r ∷ rs)

  unfoldable pub list_templates : Db → Result StoreError (List (TemplateRecord M))
  list_templates db = scan_templates (
      order_by (newest_first (λ (r : TemplateRow). r.created_at) (λ (r : TemplateRow). r.id))
        db.templates)

abbrev pub has_template_id : String → TemplateRow → Bool
has_template_id id r = str_eq r.id id

abbrev pub of_template : String → TemplateBuildRecord → Bool
of_template id b = str_eq b.template_id id

-- One transaction: the builds go first, and come back if there is no such template.
unfoldable pub delete_template : String → Db → Tx (Unit {0})
delete_template id db =
    let without_builds = record db { builds = delete (of_template id) db.builds } in
    if affected (has_template_id id) without_builds.templates == 0 then (err not_found, db) else (
      ok tt,
      record without_builds { templates = delete (has_template_id id) without_builds.templates },
    )
