-- ===== src/Store/Request/Validity.antt =====
-- Every request keeps the primary keys and the unique index.
use novita_box.Common.{
  ℕ, String, refl, List, [], ◌∷◌, some, arith, text_eq, nat_eq, ◌∙◌, str_eq, Bool-cases, Result, ok,
  err, inl, inr, ◌==◌, ◌&&◌,
}
use novita_box.Common.Int.{ℤ}
use novita_box.Store.Table.{is_unique, update, delete}
use novita_box.Store.Table.Laws.{is_unique-delete, is_unique-update, is_unique-clear}
use novita_box.Store.Records.{
  State, SandboxRecord, TemplateRow, TemplateBuildStatus, TemplateBuildRecord, StoreError, Db,
  IsValid, IsValid-artifacts, sandbox_key, slot_key, empty_db,
}
use novita_box.Store.Sandbox.{
  has_id, in_state, create_sandbox, update_sandbox_state, assign_sandbox_network_slot, write_slot,
  release_sandbox_network_slot, update_sandbox_rootfs_digest, delete_sandbox, if_affected,
}
use novita_box.Store.Artifact.Images.{create_image, delete_image, has_image_id}
use novita_box.Store.Artifact.Snapshots.{create_snapshot, delete_snapshot, has_snapshot_id}
use novita_box.Store.Artifact.Templates.{
  Json, insert_template, create_template, template_row, delete_template, has_template_id,
  of_template,
}
use novita_box.Store.Build.{create_template_build, update_template_build_status, has_status}
use novita_box.Store.Request.{
  Request, after, after_all, add_sandbox, set_state, assign_slot, release_slot, set_digest,
  drop_sandbox, add_image, drop_image, add_template, drop_template, add_build, set_build_status,
  add_snapshot, drop_snapshot,
}

pub update_sandbox_state-IsValid :
    (now : ℤ) (id : String) (from to : State) (action : String) (db : Db)
    → IsValid db
    → IsValid (update_sandbox_state now id from to action db).1
unfolding update_sandbox_state
update_sandbox_state-IsValid now id from to action db v =
    let f = λ (r : SandboxRecord). record r { state = to; updated_at = now } in
    ground (
      arith,
      is_unique-update text_eq sandbox_key (in_state id from) f db.sandboxes (λ r. refl),
      is_unique-update nat_eq slot_key (in_state id from) f db.sandboxes (λ r. refl),
    )

write_slot-IsValid :
    (now : ℤ) (id : String) (s : ℕ) (db : Db) → IsValid db → IsValid (write_slot now id s db).1
unfolding write_slot
write_slot-IsValid now id s db v =
    let p = λ (r : SandboxRecord). str_eq r.id id && r.network_slot == 0 in
    let f = λ (r : SandboxRecord). record r { network_slot = s; updated_at = now } in
    ground (arith, is_unique-update text_eq sandbox_key p f db.sandboxes (λ r. refl))

assign_sandbox_network_slot-IsValid :
    (now : ℤ) (id : String) (max_slot : ℕ) (db : Db)
    → IsValid db
    → IsValid (assign_sandbox_network_slot now id max_slot db).1
unfolding assign_sandbox_network_slot
assign_sandbox_network_slot-IsValid now id max_slot db v = grind (arith, write_slot-IsValid)

pub release_sandbox_network_slot-IsValid :
    (now : ℤ) (id : String) (db : Db)
    → IsValid db
    → IsValid (release_sandbox_network_slot now id db).1
unfolding release_sandbox_network_slot
release_sandbox_network_slot-IsValid now id db v =
    let f = λ (r : SandboxRecord). record r { network_slot = 0; updated_at = now } in
    ground (
      arith,
      is_unique-update text_eq sandbox_key (has_id id) f db.sandboxes (λ r. refl),
      is_unique-clear nat_eq slot_key (has_id id) f db.sandboxes (λ r. refl),
    )

pub update_sandbox_rootfs_digest-IsValid :
    (now : ℤ) (id digest : String) (db : Db)
    → IsValid db
    → IsValid (update_sandbox_rootfs_digest now id digest db).1
unfolding update_sandbox_rootfs_digest
update_sandbox_rootfs_digest-IsValid now id digest db v =
    let f = λ (r : SandboxRecord). record r { rootfs_source_digest = digest; updated_at = now } in
    ground (
      arith,
      is_unique-update text_eq sandbox_key (has_id id) f db.sandboxes (λ r. refl),
      is_unique-update nat_eq slot_key (has_id id) f db.sandboxes (λ r. refl),
    )

pub delete_sandbox-IsValid : (id : String) (db : Db) → IsValid db → IsValid (delete_sandbox id db).1
unfolding delete_sandbox
delete_sandbox-IsValid id db v = ground (
  arith,
  is_unique-delete text_eq sandbox_key (has_id id) db.sandboxes,
  is_unique-delete nat_eq slot_key (has_id id) db.sandboxes,
)

if_affected-IsValid :
    (n : ℕ) (db db' : Db) → IsValid db → IsValid db' → IsValid (if_affected n db db').1
if_affected-IsValid n db db' v v' = elim (Bool-cases (n == 0)) [
  | inl absent ↦ rw absent v
  | inr found ↦ rw found v'
]

delete_image-IsValid : (id : String) (db : Db) → IsValid db → IsValid (delete_image id db).1
unfolding delete_image
delete_image-IsValid id db v = if_affected-IsValid _ db _ v (
    IsValid-artifacts (delete (has_image_id id) db.images) db.templates db.snapshots db.builds v
      (is_unique-delete text_eq _ (has_image_id id) db.images v.image_ids) v.template_ids
      v.snapshot_ids v.build_ids)

pub delete_snapshot-IsValid :
    (id : String) (db : Db) → IsValid db → IsValid (delete_snapshot id db).1
unfolding delete_snapshot
delete_snapshot-IsValid id db v = if_affected-IsValid _ db _ v (
    IsValid-artifacts db.images db.templates (delete (has_snapshot_id id) db.snapshots) db.builds v
      v.image_ids v.template_ids
      (is_unique-delete text_eq _ (has_snapshot_id id) db.snapshots v.snapshot_ids) v.build_ids)

delete_template-IsValid : (id : String) (db : Db) → IsValid db → IsValid (delete_template id db).1
unfolding delete_template
delete_template-IsValid id db v = if_affected-IsValid _ db _ v (
    IsValid-artifacts db.images (delete (has_template_id id) db.templates) db.snapshots
      (delete (of_template id) db.builds) v v.image_ids
      (is_unique-delete text_eq _ (has_template_id id) db.templates v.template_ids) v.snapshot_ids
      (is_unique-delete text_eq _ (of_template id) db.builds v.build_ids))

update_template_build_status-IsValid :
    (now : ℤ) (template_id build_id : String) (from to : TemplateBuildStatus) (db : Db)
    → IsValid db
    → IsValid (update_template_build_status now template_id build_id from to db).1
unfolding update_template_build_status
update_template_build_status-IsValid now template_id build_id from to db v =
    let f = λ (r : TemplateBuildRecord). record r { status = to; updated_at = now } in
    let p = has_status template_id build_id from in
    if_affected-IsValid _ db _ v (
      IsValid-artifacts db.images db.templates db.snapshots (update p f db.builds) v v.image_ids
        v.template_ids v.snapshot_ids
        (is_unique-update text_eq _ p f db.builds (λ r. refl) ∙ v.build_ids))

insert_template-IsValid :
    (row : Result StoreError TemplateRow) (db : Db)
    → IsValid db
    → IsValid (insert_template db row).1
insert_template-IsValid (err e) db v = v
insert_template-IsValid (ok row) db v =
    elim (Bool-cases (is_unique text_eq (λ (x : TemplateRow). some x.id) (row ∷ db.templates))) [
      | inl fits ↦ rw fits (
          IsValid-artifacts db.images (row ∷ db.templates) db.snapshots db.builds v v.image_ids fits
            v.snapshot_ids v.build_ids)
      | inr clash ↦ rw clash v
    ]

module _ {M : Type 0} (json : Json M) where
  -- One request keeps the database valid, whether it succeeds or returns an error.
  pub after-IsValid : (q : Request M) (db : Db) → IsValid db → IsValid (after json q db)
  unfolding after create_sandbox create_image create_template create_template_build create_snapshot
  after-IsValid (add_sandbox now r) db v = ground arith
  after-IsValid (set_state now id from to action) db v =
      update_sandbox_state-IsValid now id from to action db v
  after-IsValid (assign_slot now id max_slot) db v =
      assign_sandbox_network_slot-IsValid now id max_slot db v
  after-IsValid (release_slot now id) db v = release_sandbox_network_slot-IsValid now id db v
  after-IsValid (set_digest now id digest) db v =
      update_sandbox_rootfs_digest-IsValid now id digest db v
  after-IsValid (drop_sandbox id) db v = delete_sandbox-IsValid id db v
  after-IsValid (add_image now r) db v = ground arith
  after-IsValid (drop_image id) db v = delete_image-IsValid id db v
  after-IsValid (add_template now r) db v = insert_template-IsValid (template_row json now r) db v
  after-IsValid (drop_template id) db v = delete_template-IsValid id db v
  after-IsValid (add_build now r) db v = ground arith
  after-IsValid (set_build_status now template_id build_id from to) db v =
      update_template_build_status-IsValid now template_id build_id from to db v
  after-IsValid (add_snapshot now r) db v = ground arith
  after-IsValid (drop_snapshot id) db v = delete_snapshot-IsValid id db v

  -- Every run of requests, successful or not, on a database whose tables have unique keys and whose
  -- network slots above 0 are unique leaves such a database.
  pub after_all-IsValid :
      (qs : List (Request M)) (db : Db) → IsValid db → IsValid (after_all json qs db)
  unfolding after_all
  after_all-IsValid [] db v = v
  after_all-IsValid (q ∷ qs) db v = after_all-IsValid qs (after json q db) (after-IsValid q db v)

pub empty_db-IsValid : IsValid empty_db
unfolding is_unique
empty_db-IsValid = ground arith
