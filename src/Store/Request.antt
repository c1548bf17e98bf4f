-- ===== src/Store/Request.antt =====
-- The changes that the Store interface offers, as one type of requests, and a run of them.
-- internal/storage/store/store.go (the interface), internal/storage/store/sqlite.
pub mod Validity
pub mod Moves
pub mod Audit
pub mod Columns
pub mod Trail
pub mod Slots
use novita_box.Common.{ℕ, String, List, [], ◌∷◌}
use novita_box.Common.Int.{ℤ}
use novita_box.Store.Records.{
  State, SandboxRecord, ImageRecord, SnapshotRecord, TemplateBuildStatus, TemplateBuildRecord, Db,
}
use novita_box.Store.Sandbox.{
  create_sandbox, update_sandbox_state, assign_sandbox_network_slot, release_sandbox_network_slot,
  update_sandbox_rootfs_digest, delete_sandbox,
}
use novita_box.Store.Artifact.Images.{create_image, delete_image}
use novita_box.Store.Artifact.Snapshots.{create_snapshot, delete_snapshot}
use novita_box.Store.Artifact.Templates.{Json, TemplateRecord, create_template, delete_template}
use novita_box.Store.Build.{create_template_build, update_template_build_status}

pub data Request (M : Type 0) : Type 0 where
  add_sandbox : ℤ → SandboxRecord → Request M
  set_state : ℤ → String → State → State → String → Request M
  assign_slot : ℤ → String → ℕ → Request M
  release_slot : ℤ → String → Request M
  set_digest : ℤ → String → String → Request M
  drop_sandbox : String → Request M
  add_image : ℤ → ImageRecord → Request M
  drop_image : String → Request M
  add_template : ℤ → TemplateRecord M → Request M
  drop_template : String → Request M
  add_build : ℤ → TemplateBuildRecord → Request M
  set_build_status : ℤ → String → String → TemplateBuildStatus → TemplateBuildStatus → Request M
  add_snapshot : ℤ → SnapshotRecord → Request M
  drop_snapshot : String → Request M

module _ {M : Type 0} (json : Json M) where
  -- the database after a request, successful or not
  unfoldable pub after : Request M → Db → Db
  after (add_sandbox now r) db = (create_sandbox now r db).1
  after (set_state now id from to action) db = (update_sandbox_state now id from to action db).1
  after (assign_slot now id max_slot) db = (assign_sandbox_network_slot now id max_slot db).1
  after (release_slot now id) db = (release_sandbox_network_slot now id db).1
  after (set_digest now id digest) db = (update_sandbox_rootfs_digest now id digest db).1
  after (drop_sandbox id) db = (delete_sandbox id db).1
  after (add_image now r) db = (create_image now r db).1
  after (drop_image id) db = (delete_image id db).1
  after (add_template now r) db = (create_template json now r db).1
  after (drop_template id) db = (delete_template id db).1
  after (add_build now r) db = (create_template_build now r db).1
  after (set_build_status now template_id build_id from to) db =
      (update_template_build_status now template_id build_id from to db).1
  after (add_snapshot now r) db = (create_snapshot now r db).1
  after (drop_snapshot id) db = (delete_snapshot id db).1

  unfoldable pub after_all : List (Request M) → Db → Db
  unfolding after
  after_all [] db = db
  after_all (q ∷ qs) db = after_all qs (after q db)
