-- ===== src/Store/Request/Trail.antt =====
-- Every run of requests keeps the audit trail.
use mathlib.Core.Option
use novita_box.Common.{
  ◌≡◌, refl, ap, String, false, some, List, [], ◌∷◌, arith, Result, ok, err, All, str_eq, eq_iff,
}
use novita_box.Store.Table.{select, delete, affected}
use novita_box.Store.Table.Laws.{find-delete_other}
use novita_box.Store.Records.{State, StoreError, TemplateRow, SandboxRecord, Db, IsValid}
use novita_box.Store.Sandbox.{
  has_id, release_sandbox_network_slot, update_sandbox_rootfs_digest, delete_sandbox,
}
use novita_box.Store.Artifact.Images.{create_image, delete_image}
use novita_box.Store.Artifact.Snapshots.{create_snapshot, delete_snapshot}
use novita_box.Store.Artifact.Templates.{
  Json, template_row, insert_template, create_template, delete_template,
}
use novita_box.Store.Build.{create_template_build, update_template_build_status}
use novita_box.Store.Transition.{is_about, list_transitions}
use novita_box.Store.Transition.History.{IsLogged, list_transitions-select}
use novita_box.Store.Request.{
  Request, after, after_all, add_sandbox, set_state, assign_slot, release_slot, set_digest,
  drop_sandbox, add_image, drop_image, add_template, drop_template, add_build, set_build_status,
  add_snapshot, drop_snapshot,
}
use novita_box.Store.Request.Audit.{
  IsAudited, IsAudited-same, update_sandbox_state-IsAudited, create_sandbox-IsAudited,
}
use novita_box.Store.Request.Columns.{
  if_affected-IsAudited, update-IsAudited, assign_sandbox_network_slot-IsAudited,
}
use novita_box.Store.Request.Validity.{after-IsValid}
use novita_box.Store.Request.Moves.{state_in, IsChain}

-- A request that does not delete the sandbox.
abbrev pub Spares : {M : Type 0} → String → Request M → Type 0
Spares id (drop_sandbox j) = str_eq j id ≡ false
Spares id _ = Unit

delete_sandbox-IsAudited :
    (j id : String) (s t : State) (db : Db)
    → str_eq j id ≡ false
    → IsAudited id s t db
    → IsAudited id s t (delete_sandbox j db).1
unfolding delete_sandbox
delete_sandbox-IsAudited j id s t db ne a =
    if_affected-IsAudited (affected (has_id j) db.sandboxes) id s t db
      (record db { sandboxes = delete (has_id j) db.sandboxes }) a
      (IsAudited-same id s t db _ a
        (ap (Option.map (λ (r : SandboxRecord). r.state)) (
          find-delete_other (has_id j) (has_id id) db.sandboxes
            (λ r h. ground (arith, eq_iff r.id j, eq_iff r.id id, eq_iff j id))))
        refl refl)

insert_template-same :
    (row : Result StoreError TemplateRow) (db : Db)
    → ((insert_template db row).1.sandboxes ≡ db.sandboxes)
      × ((insert_template db row).1.transitions ≡ db.transitions)
      × ((insert_template db row).1.last_transition ≡ db.last_transition)
insert_template-same (err e) db = (refl, refl, refl)
insert_template-same (ok row) db = ground arith

-- What a request on artifacts leaves alone.
abbrev SameSandboxes : Db → Db → Type 0
SameSandboxes db db' =
    (db'.sandboxes ≡ db.sandboxes)
    × (db'.transitions ≡ db.transitions)
    × (db'.last_transition ≡ db.last_transition)

keep :
    (id : String) (s t : State) (db db' : Db)
    → SameSandboxes db db'
    → IsAudited id s t db
    → (u : State) × IsAudited id s u db'
keep id s t db db' same a =
    (t, IsAudited-same id s t db db' a (ap (state_in id) same.0) same.1 same.2)

module _ {M : Type 0} (json : Json M) where
  after-IsAudited :
      (q : Request M) (id : String) (s t : State) (db : Db)
      → Spares id q
      → IsValid db
      → IsAudited id s t db
      → (u : State) × IsAudited id s u (after json q db)
  unfolding after release_sandbox_network_slot update_sandbox_rootfs_digest create_image
      delete_image create_template delete_template create_template_build
      update_template_build_status create_snapshot delete_snapshot
  after-IsAudited (add_sandbox now r) id s t db f v a =
      (t, create_sandbox-IsAudited now id r s t db a)
  after-IsAudited (set_state now j from to action) id s t db f v a =
      update_sandbox_state-IsAudited now j id from to action s t db v a
  after-IsAudited (assign_slot now j max_slot) id s t db f v a =
      (t, assign_sandbox_network_slot-IsAudited now j id max_slot s t db a)
  after-IsAudited (release_slot now j) id s t db f v a = (
    t,
    if_affected-IsAudited (affected (has_id j) db.sandboxes) id s t db _ a
        (update-IsAudited (has_id j) _ id s t db (λ r. (refl, refl)) a),
  )
  after-IsAudited (set_digest now j digest) id s t db f v a = (
    t,
    if_affected-IsAudited (affected (has_id j) db.sandboxes) id s t db _ a
        (update-IsAudited (has_id j) _ id s t db (λ r. (refl, refl)) a),
  )
  after-IsAudited (drop_sandbox j) id s t db f v a = (t, delete_sandbox-IsAudited j id s t db f a)
  after-IsAudited (add_image now r) id s t db f v a = keep id s t db _ (ground arith) a
  after-IsAudited (drop_image j) id s t db f v a = keep id s t db _ (ground arith) a
  after-IsAudited (add_template now r) id s t db f v a =
      keep id s t db _ (insert_template-same (template_row json now r) db) a
  after-IsAudited (drop_template j) id s t db f v a = keep id s t db _ (ground arith) a
  after-IsAudited (add_build now r) id s t db f v a = keep id s t db _ (ground arith) a
  after-IsAudited (set_build_status now template_id build_id from to) id s t db f v a =
      keep id s t db _ (ground arith) a
  after-IsAudited (add_snapshot now r) id s t db f v a = keep id s t db _ (ground arith) a
  after-IsAudited (drop_snapshot j) id s t db f v a = keep id s t db _ (ground arith) a

  after_all-IsAudited :
      (qs : List (Request M)) (id : String) (s t : State) (db : Db)
      → All (Spares id) qs
      → IsValid db
      → IsAudited id s t db
      → (u : State) × IsAudited id s u (after_all json qs db)
  unfolding after_all
  after_all-IsAudited [] id s t db f v a = (t, a)
  after_all-IsAudited (q ∷ qs) id s t db f v a =
      let (u, b) = after-IsAudited q id s t db f.0 v a in
      after_all-IsAudited qs id s u (after json q db) f.1 (after-IsValid json q db v) b

  -- Take a valid database with an ordered log, in which a sandbox is in state `s` and has no
  -- transitions yet. After any requests that do not delete the sandbox, successful or not and about
  -- any resources, the sandbox is still there, and what ListTransitions returns for it, in its
  -- order, is a chain of steps from `s` to the state that the sandbox is then in.
  pub list_transitions-IsChain :
      (qs : List (Request M)) (id : String) (s : State) (db : Db)
      → All (Spares id) qs
      → IsValid db
      → IsLogged db
      → state_in id db.sandboxes ≡ some s
      → select (is_about "sandbox" id) db.transitions ≡ []
      → (t : State) × (state_in id (after_all json qs db).sandboxes ≡ some t)
        × IsChain s (list_transitions "sandbox" id (after_all json qs db)) t
  list_transitions-IsChain qs id s db f v l here fresh =
      let start : IsAudited id s s db = record {
        logged = l;
        present = here;
        trail = rw fresh refl;
      } in
      let (t, a) = after_all-IsAudited qs id s s db f v start in
      (
        t,
        a.present,
        rw (list_transitions-select "sandbox" id (after_all json qs db) a.logged) a.trail,
      )
