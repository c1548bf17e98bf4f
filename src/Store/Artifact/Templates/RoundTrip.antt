-- ===== src/Store/Artifact/Templates/RoundTrip.antt =====
-- A template that was written is read back, and a deletion that finds no template deletes nothing.
use novita_box.Common.{
  String, false, ◌≡◌, ◌≢◌, refl, none, some, List, [], arith, str_eq, eq_iff, Option-cases, inl,
  inr, ok, err, ◌⊎◌,
}
use novita_box.Common.Int.{ℤ}
use novita_box.Store.Table.{find, select, delete}
use novita_box.Store.Table.Laws.{
  affected-find-none, affected-find-some, find-delete, find-delete_other, select-delete,
  select-delete_other,
}
use novita_box.Store.Records.{TemplateRow, Db, not_found}
use novita_box.Store.Artifact.Images.{fill_record_times}
use novita_box.Store.Artifact.Templates.{
  Json, TemplateRecord, bool_to_int, normalize_template_record, delete_template, has_template_id,
  of_template,
}

-- What the store relies on of encoding/json: a list or map that is encoded is no empty text and
-- decodes to itself.
pub record RoundTrips {M : Type 0} (json : Json M) : Type 0 where
  pub list :
      (xs : List String) (t : String)
      → json.marshal_list xs ≡ some t
      → (json.unmarshal_list t ≡ some (some xs)) × (str_eq t "" ≡ false)
  pub map_ :
      (m : M) (t : String)
      → json.marshal_map m ≡ some t
      → (json.unmarshal_map t ≡ some (some m)) × (str_eq t "" ≡ false)

-- The record that a reader gets: normalised, with its times filled in.
abbrev pub stored : {M : Type 0} → Json M → ℤ → TemplateRecord M → TemplateRecord M
stored json now r =
    let times = fill_record_times now r.created_at r.updated_at in
    record (normalize_template_record json r) {
      created_at = times.created_at;
      updated_at = times.updated_at;
    }

module _ {M : Type 0} (json : Json M) (laws : RoundTrips json) where
  -- The text columns of a row that was written, and what scanning makes of the row.
  abbrev written : ℤ → TemplateRecord M → String → String → String → TemplateRow
  written now given aliases names metadata =
      let r = normalize_template_record json given in
      let times = fill_record_times now r.created_at r.updated_at in
      record {
        id = r.id;
        rootfs_path = r.rootfs_path;
        memfile_path = r.memfile_path;
        snapfile_path = r.snapfile_path;
        aliases_json = aliases;
        names_json = names;
        metadata_json = metadata;
        is_public = bool_to_int r.is_public;
        cpu_count = r.cpu_count;
        memory_mb = r.memory_mb;
        created_at = times.created_at;
        updated_at = times.updated_at;
      }

-- For every template id and database, DeleteTemplate either finds no template, and then returns
-- ErrNotFound and the database as it was, builds included, or removes the template and all its
-- builds, and no build of another template and no sandbox.
pub delete_template-cases :
    (id : String) (db : Db)
    → ((delete_template id db ≡ (err not_found, db))
        × (find (has_template_id id) db.templates ≡ none))
      ⊎ ((db' : Db) × (delete_template id db ≡ (ok tt, db'))
          × (find (has_template_id id) db'.templates ≡ none)
          × (select (of_template id) db'.builds ≡ [])
          × ((other : String)
              → other ≢ id
              → (find (has_template_id other) db'.templates
                  ≡ find (has_template_id other) db.templates)
                × (select (of_template other) db'.builds ≡ select (of_template other) db.builds))
          × (db'.sandboxes ≡ db.sandboxes))
unfolding delete_template
delete_template-cases id db = elim (Option-cases (find (has_template_id id) db.templates)) [
  | inl absent ↦ inl (rw (affected-find-none (has_template_id id) db.templates absent) refl, absent)
  | inr (r, there) ↦
      let n = affected-find-some (has_template_id id) db.templates r there in
      inr (
        record db {
          builds = delete (of_template id) db.builds;
          templates = delete (has_template_id id) db.templates;
        },
        ground arith,
        find-delete (has_template_id id) db.templates,
        select-delete (of_template id) db.builds,
        λ other ne. (
          find-delete_other (has_template_id id) (has_template_id other) db.templates
              (λ x h. ground (arith, eq_iff x.id id, eq_iff x.id other)),
          select-delete_other (of_template id) (of_template other) db.builds
              (λ x h. ground (arith, eq_iff x.template_id id, eq_iff x.template_id other)),
        ),
        refl,
      )
]
