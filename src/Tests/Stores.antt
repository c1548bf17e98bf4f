-- ===== src/Tests/Stores.antt =====
-- A store with three sandboxes, and a run of requests.
use novita_box.Store.Artifact.Templates.{template_row}
use novita_box.Store.Records.{state_eq}
use novita_box.Store.Sandbox.{sandbox_row}
use novita_box.Store.Sandbox.{create_sandbox}
use novita_box.Store.Sandbox.{release_sandbox_network_slot}
use novita_box.Store.Table.{affected}
use novita_box.Store.Table.{update}
use novita_box.Store.Sandbox.{write_slot}
use novita_box.Common.{
  ℕ, ◌≤◌, ◌<◌, ◌≡◌, ◌≢◌, refl, ◌⊎◌, String, true, false, none, some, List, [], ◌∷◌, All, ok, err,
  arith, eq_iff,
}
use mathlib.Core.List.{Memᴰ}
use novita_box.Common.Int.{ℤ, pos, ◌≤ℤ◌}
use novita_box.Store.Order.{order_by}
use novita_box.Store.Build.{get_latest_template_build}
use novita_box.Store.Build.Latest.{get_latest_template_build-newest}
use novita_box.Store.Artifact.Templates.{delete_template, has_template_id, of_template}
use novita_box.Store.Artifact.Templates.RoundTrip.{delete_template-cases}
use novita_box.Store.Records.{TemplateBuildRecord, ready, not_found}
use novita_box.Store.Table.{find, select, is_unique}
use novita_box.Store.Records.{
  State, no_slots, running, pausing, paused, stopped, SandboxRecord, Db, IsValid, empty_db,
}
use novita_box.Store.Sandbox.{
  has_id, contains, used_slots, first_free, assign_sandbox_network_slot, update_sandbox_state,
}
use novita_box.Store.Sandbox.SlotSearch.{IsLeastFree, first_free_lem}
use novita_box.Store.Sandbox.Assign.{IsAssigned, assign_sandbox_network_slot-cases}
use novita_box.Store.Sandbox.Repeat.{assign_twice}
use novita_box.Store.Transition.{is_about, list_transitions}
use novita_box.Store.Artifact.Templates.{TemplateRecord, create_template}
use novita_box.Store.Request.{Request, after_all, add_sandbox, set_state, assign_slot, release_slot}
use novita_box.Store.Request.Validity.{after_all-IsValid, empty_db-IsValid}
use novita_box.Store.Request.Moves.{state_in, IsChain}
use novita_box.Store.Request.Trail.{list_transitions-IsChain}
use novita_box.Store.Request.Slots.{network_slots-distinct}
use novita_box.Tests.Json.{tagged_json}

abbrev pub sandbox : String → ℕ → SandboxRecord
sandbox id slot = record {
  id = id;
  state = running;
  runtime_type = "container";
  template_id = "";
  image_id = "base";
  snapshot_id = "";
  network_slot = slot;
  rootfs_provider = "directory";
  rootfs_source_ref = "base";
  rootfs_source_digest = "";
  rootfs_snapshot_key = "";
  created_at = pos 10;
  updated_at = pos 10;
}

abbrev pub three : List SandboxRecord
three = sandbox "a" 1 ∷ sandbox "b" 0 ∷ sandbox "c" 3 ∷ []

abbrev pub full : Db
full = record empty_db { sandboxes = three }

pub full-IsValid : IsValid full
unfolding is_unique
full-IsValid = ground arith

first_free_lem_example : IsLeastFree 3 (used_slots three) (first_free 4 1 3 (used_slots three))
first_free_lem_example = first_free_lem 3 three (omega arith) (omega arith)

first_free_two : first_free 4 1 3 (used_slots three) ≡ some 2
unfolding first_free used_slots select
first_free_two = refl

found_b : find (has_id "b") three ≡ some (sandbox "b" 0)
unfolding find
found_b = refl

assign_sandbox_network_slot-cases_example :
    ((assign_sandbox_network_slot (pos 20) "b" 3 full ≡ (err no_slots, full))
      × ((k : ℕ) → 0 < k → k ≤ 3 → contains (used_slots three) k ≡ true))
    ⊎ ((s : ℕ) × (db' : Db) × (assign_sandbox_network_slot (pos 20) "b" 3 full ≡ (ok s, db'))
        × (0 < s)
        × (s ≤ 3)
        × (contains (used_slots three) s ≡ false)
        × ((k : ℕ) → 0 < k → k < s → contains (used_slots three) k ≡ true)
        × IsAssigned (pos 20) "b" s (sandbox "b" 0) full db')
assign_sandbox_network_slot-cases_example =
    assign_sandbox_network_slot-cases (pos 20) "b" 3 full (sandbox "b" 0) full-IsValid (omega arith)
      (omega arith) found_b refl

abbrev with_b : Db
with_b = record empty_db {
  sandboxes = sandbox "a" 1 ∷ record (sandbox "b" 2) { updated_at = pos 20 } ∷ sandbox "c" 3 ∷ [];
}

assigned_two : assign_sandbox_network_slot (pos 20) "b" 3 full ≡ (ok 2, with_b)
unfolding assign_sandbox_network_slot find first_free used_slots select write_slot is_unique update
    affected
assigned_two = refl

assign_twice_example : assign_sandbox_network_slot (pos 30) "b" 9 with_b ≡ (ok 2, with_b)
assign_twice_example =
    assign_twice (pos 20) "b" 3 2 (sandbox "b" 0) full with_b full-IsValid (omega arith)
      (omega arith) found_b assigned_two (pos 30) 9 (omega arith)

-- A fourth sandbox comes after that.
abbrev full_and_d : Db
full_and_d = record empty_db { sandboxes = sandbox "d" 0 ∷ full.sandboxes }

abbrev with_b_and_d : Db
with_b_and_d = record empty_db { sandboxes = sandbox "d" 0 ∷ with_b.sandboxes }

abbrev with_both : Db
with_both = record empty_db {
  sandboxes = record (sandbox "d" 4) { updated_at = pos 30 } ∷ with_b.sandboxes;
}

-- Two sandboxes are created and given slots, and one gives its slot back.
abbrev pub slot_requests : List (Request String)
slot_requests =
    add_sandbox (pos 1) (sandbox "a" 0)
    ∷ add_sandbox (pos 2) (sandbox "b" 0)
    ∷ assign_slot (pos 3) "a" 5
    ∷ assign_slot (pos 4) "b" 5
    ∷ release_slot (pos 5) "a"
    ∷ assign_slot (pos 6) "a" 5
    ∷ []

abbrev pub slot_of : String → ℕ → ℤ → SandboxRecord
slot_of id slot at = record (sandbox id slot) { updated_at = at }

found_first :
    find (has_id "a") (after_all tagged_json slot_requests empty_db).sandboxes
    ≡ some (slot_of "a" 1 (pos 6))
unfolding after_all find assign_sandbox_network_slot release_sandbox_network_slot affected
    create_sandbox is_unique sandbox_row first_free used_slots select write_slot update
found_first = refl

found_second :
    find (has_id "b") (after_all tagged_json slot_requests empty_db).sandboxes
    ≡ some (slot_of "b" 2 (pos 4))
unfolding after_all find assign_sandbox_network_slot release_sandbox_network_slot affected
    create_sandbox is_unique sandbox_row first_free used_slots select write_slot update
found_second = refl

pub slot_rows :
    (after_all tagged_json slot_requests empty_db).sandboxes
    ≡ slot_of "b" 2 (pos 4) ∷ slot_of "a" 1 (pos 6) ∷ []
unfolding after_all find assign_sandbox_network_slot release_sandbox_network_slot affected
    create_sandbox is_unique sandbox_row first_free used_slots select write_slot update
slot_rows = refl

pub a-b : ◌≢◌ {A = String} "a" "b"
a-b = ground (arith, eq_iff "a" "b")

network_slots-distinct_example : ◌≢◌ {A = ℕ} 1 2
network_slots-distinct_example =
    network_slots-distinct tagged_json slot_requests "a" "b" (slot_of "a" 1 (pos 6))
      (slot_of "b" 2 (pos 4)) found_first found_second a-b (omega arith)

after_all-IsValid_example : IsValid (after_all tagged_json slot_requests empty_db)
after_all-IsValid_example = after_all-IsValid tagged_json slot_requests empty_db empty_db-IsValid

-- A pause in two steps, with a request in between that finds the sandbox in another state.
abbrev pause_requests : List (Request String)
pause_requests =
    set_state (pos 11) "a" running pausing "pause"
    ∷ set_state (pos 12) "a" running stopped "stop"
    ∷ set_state (pos 13) "a" pausing paused "paused"
    ∷ release_slot (pos 14) "a"
    ∷ []

found_running : state_in "a" full.sandboxes ≡ some running
unfolding find
found_running = refl

no_log : select (is_about "sandbox" "a") full.transitions ≡ []
unfolding select
no_log = refl

list_transitions-IsChain_example :
    (t : State) × (state_in "a" (after_all tagged_json pause_requests full).sandboxes ≡ some t)
    × IsChain running (list_transitions "sandbox" "a" (after_all tagged_json pause_requests full)) t
list_transitions-IsChain_example =
    list_transitions-IsChain tagged_json pause_requests "a" running full (tt, (tt, (tt, (tt, tt))))
      full-IsValid (record { ordered = tt; counted = tt }) found_running no_log

paused_now : state_in "a" (after_all tagged_json pause_requests full).sandboxes ≡ some paused
unfolding after_all find release_sandbox_network_slot affected update_sandbox_state state_eq update
paused_now = refl

abbrev template : TemplateRecord String
template = record {
  id = "t";
  rootfs_path = "/templates/t/rootfs.ext4";
  memfile_path = "";
  snapfile_path = "";
  aliases = some ("web" ∷ "api" ∷ []);
  names = none;
  metadata = none;
  is_public = true;
  cpu_count = pos 0;
  memory_mb = pos 256;
  created_at = pos 0;
  updated_at = pos 0;
}

abbrev build : String → String → ℤ → TemplateBuildRecord
build id template_id at = record {
  id = id;
  template_id = template_id;
  status = ready;
  created_at = at;
  updated_at = at;
}

-- Two builds of a template, and one of a template that is not there.
abbrev built : Db
built = record (create_template tagged_json (pos 7) template empty_db).1 {
  builds = build "x" "t" (pos 5) ∷ build "y" "u" (pos 9) ∷ build "z" "t" (pos 8) ∷ [];
}

delete_template-cases_example :
    ((delete_template "t" built ≡ (err not_found, built))
      × (find (has_template_id "t") built.templates ≡ none))
    ⊎ ((db' : Db) × (delete_template "t" built ≡ (ok tt, db'))
        × (find (has_template_id "t") db'.templates ≡ none)
        × (select (of_template "t") db'.builds ≡ [])
        × ((other : String)
            → other ≢ "t"
            → (find (has_template_id other) db'.templates
                ≡ find (has_template_id other) built.templates)
              × (select (of_template other) db'.builds ≡ select (of_template other) built.builds))
        × (db'.sandboxes ≡ built.sandboxes))
delete_template-cases_example = delete_template-cases "t" built

kept : delete_template "u" built ≡ (err not_found, built)
unfolding delete_template create_template affected template_row is_unique
kept = refl

get_latest_template_build-newest_example :
    ((get_latest_template_build "t" built ≡ err not_found)
      × (select (of_template "t") built.builds ≡ []))
    ⊎ ((b : TemplateBuildRecord) × (get_latest_template_build "t" built ≡ ok b)
        × Memᴰ b (select (of_template "t") built.builds)
        × All
            (λ (x : TemplateBuildRecord). x.created_at ≤ℤ b.created_at)
            (select (of_template "t") built.builds))
get_latest_template_build-newest_example = get_latest_template_build-newest "t" built

latest_is_z : get_latest_template_build "t" built ≡ ok (build "z" "t" (pos 8))
unfolding get_latest_template_build select order_by
latest_is_z = refl
