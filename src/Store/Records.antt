-- ===== src/Store/Records.antt =====
-- internal/sandbox/types.go and internal/storage/store/store.go: the states, the records and the
-- errors; and the tables of internal/storage/store/sqlite/migrations.go with their unique indexes.
-- A time is its Unix seconds, which is what the tables keep.
use novita_box.Common.{
  ℕ, String, Bool, true, false, Option, none, some, List, [], ltb, ◌≡◌, ite, if◌then◌else◌, Result,
  text_eq, nat_eq,
}
use novita_box.Common.Int.{ℤ, negsuc, eq_ℤ}
use novita_box.Store.Table.{is_unique}

pub data State : Type 0 where
  creating running pausing paused resuming stopping stopped starting rebooting : State
  killing killed failed unknown : State

unfoldable pub State-discrete : Discrete State
State-discrete = hlevel

unfoldable pub state_eq : State → State → Bool
unfolding State-discrete
state_eq a b = ite (State-discrete a b) true false

pub data StoreError : Type 0 where
  -- ErrNotFound
  not_found : StoreError
  -- the driver's "UNIQUE constraint failed"
  unique_failed : StoreError
  -- "max network slot must be greater than 0"
  max_slot_zero : StoreError
  -- "no sandbox network slots available"
  no_slots : StoreError
  -- JSON that does not decode
  bad_json : StoreError
  -- the slot search ran out of the rounds that the model gives it
  out_of_fuel : StoreError

-- time.Time{}.Unix()
abbrev pub zero_time : ℤ
zero_time = negsuc 62135596799

abbrev pub is_zero : ℤ → Bool
is_zero t = eq_ℤ t zero_time

pub record SandboxRecord : Type 0 where
  pub id : String
  pub state : State
  pub runtime_type : String
  pub template_id : String
  pub image_id : String
  pub snapshot_id : String
  pub network_slot : ℕ
  pub rootfs_provider : String
  pub rootfs_source_ref : String
  pub rootfs_source_digest : String
  pub rootfs_snapshot_key : String
  pub created_at : ℤ
  pub updated_at : ℤ

pub record ImageRecord : Type 0 where
  pub id : String
  pub rootfs_path : String
  pub created_at : ℤ
  pub updated_at : ℤ

-- A row of `templates`: the lists and the map are columns of JSON text.
pub record TemplateRow : Type 0 where
  pub id : String
  pub rootfs_path : String
  pub memfile_path : String
  pub snapfile_path : String
  pub aliases_json : String
  pub names_json : String
  pub metadata_json : String
  pub is_public : ℕ
  pub cpu_count : ℤ
  pub memory_mb : ℤ
  pub created_at : ℤ
  pub updated_at : ℤ

pub record SnapshotRecord : Type 0 where
  pub id : String
  pub sandbox_id : String
  pub rootfs_path : String
  pub memfile_path : String
  pub snapfile_path : String
  pub created_at : ℤ
  pub updated_at : ℤ

pub data TemplateBuildStatus : Type 0 where
  waiting building ready error : TemplateBuildStatus

unfoldable pub TemplateBuildStatus-discrete : Discrete TemplateBuildStatus
TemplateBuildStatus-discrete = hlevel

unfoldable pub status_eq : TemplateBuildStatus → TemplateBuildStatus → Bool
unfolding TemplateBuildStatus-discrete
status_eq a b = ite (TemplateBuildStatus-discrete a b) true false

pub record TemplateBuildRecord : Type 0 where
  pub id : String
  pub template_id : String
  pub status : TemplateBuildStatus
  pub created_at : ℤ
  pub updated_at : ℤ

pub record TransitionRecord : Type 0 where
  pub id : ℕ
  pub resource_type : String
  pub resource_id : String
  pub from_state : State
  pub to_state : State
  pub action : String
  pub created_at : ℤ

-- The database: a list of rows for each table, and the AUTOINCREMENT counter of
-- `state_transitions`.
pub record Db : Type 0 where
  pub sandboxes : List SandboxRecord
  pub images : List ImageRecord
  pub templates : List TemplateRow
  pub snapshots : List SnapshotRecord
  pub builds : List TemplateBuildRecord
  pub transitions : List TransitionRecord
  pub last_transition : ℕ

abbrev pub empty_db : Db
empty_db = record {
  sandboxes = [];
  images = [];
  templates = [];
  snapshots = [];
  builds = [];
  transitions = [];
  last_transition = 0;
}

-- A statement or transaction: its result, and the database after it.
abbrev pub Tx : Type 0 → Type 0
Tx A = Result StoreError A × Db

-- sandbox_id TEXT PRIMARY KEY
abbrev pub sandbox_key : SandboxRecord → Option String
sandbox_key r = some r.id

-- CREATE UNIQUE INDEX idx_sandboxes_network_slot ... WHERE network_slot > 0
abbrev pub slot_key : SandboxRecord → Option ℕ
slot_key r = if ltb 0 r.network_slot then some r.network_slot else none

-- What the primary keys and the unique index of the tables guarantee.
pub record IsValid (db : Db) : Type 0 where
  pub sandbox_ids : is_unique text_eq sandbox_key db.sandboxes ≡ true
  pub slots : is_unique nat_eq slot_key db.sandboxes ≡ true
  pub image_ids : is_unique text_eq (λ (r : ImageRecord). some r.id) db.images ≡ true
  pub template_ids : is_unique text_eq (λ (r : TemplateRow). some r.id) db.templates ≡ true
  pub snapshot_ids : is_unique text_eq (λ (r : SnapshotRecord). some r.id) db.snapshots ≡ true
  pub build_ids : is_unique text_eq (λ (r : TemplateBuildRecord). some r.id) db.builds ≡ true

-- The tables that an operation on sandboxes leaves alone stay valid.
pub IsValid-sandboxes :
    {db : Db} (rows : List SandboxRecord) (ts : List TransitionRecord) (n : ℕ)
    → IsValid db
    → is_unique text_eq sandbox_key rows ≡ true
    → is_unique nat_eq slot_key rows ≡ true
    → IsValid (record db { sandboxes = rows; transitions = ts; last_transition = n })
IsValid-sandboxes rows ts n v ids slots = record {
  sandbox_ids = ids;
  slots = slots;
  image_ids = v.image_ids;
  template_ids = v.template_ids;
  snapshot_ids = v.snapshot_ids;
  build_ids = v.build_ids;
}

-- The tables of artifacts, one at a time.
pub IsValid-artifacts :
    {db : Db} (images : List ImageRecord) (templates : List TemplateRow)
    (snapshots : List SnapshotRecord) (builds : List TemplateBuildRecord)
    → IsValid db
    → is_unique text_eq (λ (r : ImageRecord). some r.id) images ≡ true
    → is_unique text_eq (λ (r : TemplateRow). some r.id) templates ≡ true
    → is_unique text_eq (λ (r : SnapshotRecord). some r.id) snapshots ≡ true
    → is_unique text_eq (λ (r : TemplateBuildRecord). some r.id) builds ≡ true
    → IsValid (record db {
      images = images;
      templates = templates;
      snapshots = snapshots;
      builds = builds;
    })
IsValid-artifacts images templates snapshots builds v i t s b = record {
  sandbox_ids = v.sandbox_ids;
  slots = v.slots;
  image_ids = i;
  template_ids = t;
  snapshot_ids = s;
  build_ids = b;
}
