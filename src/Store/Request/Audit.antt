-- ===== src/Store/Request/Audit.antt =====
-- The transitions of a sandbox are an audit trail: they lead from the state in which it was created
-- to the state that it is in.
use mathlib.Core.List.{append-nil}
use text.Mathlib.TextPositions.{eq_refl}
use novita_box.Common.{
  ℕ, ◌<◌, ◌≡◌, refl, sym, ap, ◌∙◌, inl, inr, String, true, false, some, List, [], ◌∷◌, arith,
  str_eq, eq_iff, Bool-cases, text_eq, nat_eq, ◌==◌, ◌&&◌,
}
use novita_box.Common.Int.{ℤ}
use novita_box.Store.Table.{find, select, affected, holds, is_unique}
use novita_box.Store.Records.{State, SandboxRecord, Db, IsValid, sandbox_key, slot_key}
use novita_box.Store.Sandbox.{
  in_state, logged_transition, transitioned, sandbox_row, create_sandbox, update_sandbox_state,
}
use novita_box.Store.Transition.{is_about}
use novita_box.Store.Transition.History.{IsLogged, IsLogged-append}
use novita_box.Store.Request.Moves.{
  state_in, IsChain, IsChain-append, select-append, matched-state, matched-update, other-update,
  later_state,
}

-- The log about a sandbox leads from `s` to its present state `t`.
pub record IsAudited (id : String) (s t : State) (db : Db) : Type 0 where
  pub logged : IsLogged db
  pub present : state_in id db.sandboxes ≡ some t
  pub trail : IsChain s (select (is_about "sandbox" id) db.transitions) t

-- Requests that leave the states and the log alone keep the trail.
pub IsAudited-same :
    (id : String) (s t : State) (db db' : Db)
    → IsAudited id s t db
    → state_in id db'.sandboxes ≡ state_in id db.sandboxes
    → db'.transitions ≡ db.transitions
    → db'.last_transition ≡ db.last_transition
    → IsAudited id s t db'
IsAudited-same id s t db db' a rows ts n = record {
  logged = record { ordered = rw ts a.logged.ordered; counted = rw (ts, n) a.logged.counted };
  present = rows ∙ a.present;
  trail = rw ts a.trail;
}

state_in-holds :
    (id j : String) (rows : List SandboxRecord) (t : State)
    → str_eq j id ≡ true
    → state_in id rows ≡ some t
    → holds text_eq sandbox_key (some j) rows ≡ true
unfolding holds find
state_in-holds id j [] t e h = ground arith
state_in-holds id j (r ∷ rows) t e h =
    ground (arith, eq_iff j id, eq_iff r.id id, eq_iff r.id j, state_in-holds id j rows t)

-- A sandbox cannot be created twice.
absent-create :
    (id : String) (r : SandboxRecord) (rows : List SandboxRecord) (t : State)
    → state_in id rows ≡ some t
    → is_unique text_eq sandbox_key (r ∷ rows) ≡ true
    → str_eq r.id id ≡ false
unfolding is_unique
absent-create id r rows t h u = elim (Bool-cases (str_eq r.id id)) [
  | inr other ↦ other
  | inl same ↦ absurd (clash (state_in-holds id r.id rows t same h) u)
]
  where
    clash :
        holds text_eq sandbox_key (some r.id) rows ≡ true
        → is_unique text_eq sandbox_key (r ∷ rows) ≡ true
        → ⊥
    clash k v = ground arith

-- A transition of the sandbox itself extends the trail.
IsAudited-own :
    (now : ℤ) (id : String) (from to : State) (action : String) (s t : State) (db : Db)
    → IsValid db
    → IsAudited id s t db
    → 0 < affected (in_state id from) db.sandboxes
    → IsAudited id s to (transitioned now id from to action db)
unfolding select
IsAudited-own now id from to action s t db v a n =
    let x = logged_transition now id from to action db in
    let same : from ≡ t = matched-state id from t db.sandboxes v.sandbox_ids a.present n in
    record {
      logged = IsLogged-append x db (transitioned now id from to action db) a.logged refl refl refl;
      present = matched-update now id from to db.sandboxes (a.present ∙ ap some (sym same));
      trail = rw (select-append (is_about "sandbox" id) db.transitions x) (
          rw (eq_refl id)
            (IsChain-append s t (select (is_about "sandbox" id) db.transitions) x a.trail same));
    }

-- A transition of another sandbox leaves it alone.
IsAudited-other :
    (now : ℤ) (j id : String) (from to : State) (action : String) (s t : State) (db : Db)
    → str_eq j id ≡ false
    → IsAudited id s t db
    → IsAudited id s t (transitioned now j from to action db)
unfolding select
IsAudited-other now j id from to action s t db ne a =
    let x = logged_transition now j from to action db in
    record {
      logged = IsLogged-append x db (transitioned now j from to action db) a.logged refl refl refl;
      present =
          other-update now id j from to db.sandboxes (λ e. ground (arith, eq_iff j id)) ∙ a.present;
      trail =
          rw (select-append (is_about "sandbox" id) db.transitions x)
            (rw ne (rw (append-nil (select (is_about "sandbox" id) db.transitions)) a.trail));
    }

positive : {n : ℕ} → (n == 0) ≡ false → 0 < n
positive h = ground arith

pub update_sandbox_state-IsAudited :
    (now : ℤ) (j id : String) (from to : State) (action : String) (s t : State) (db : Db)
    → IsValid db
    → IsAudited id s t db
    → (u : State) × IsAudited id s u (update_sandbox_state now j from to action db).1
unfolding update_sandbox_state
update_sandbox_state-IsAudited now j id from to action s t db v a =
    elim (Bool-cases (affected (in_state j from) db.sandboxes == 0)) [
      | inl missed ↦ rw missed (t, a)
      | inr hit ↦ rw hit (elim (Bool-cases (str_eq j id)) [
        | inr ne ↦ (t, IsAudited-other now j id from to action s t db ne a)
        | inl e ↦
            let same : j ≡ id = (eq_iff j id).0 e in
            let hits : 0 < affected (in_state id from) db.sandboxes = positive (rw same at hit) in
            rw same (to, IsAudited-own now id from to action s t db v a hits)
      ])
    ]

pub create_sandbox-IsAudited :
    (now : ℤ) (id : String) (r : SandboxRecord) (s t : State) (db : Db)
    → IsAudited id s t db
    → IsAudited id s t (create_sandbox now r db).1
unfolding create_sandbox
create_sandbox-IsAudited now id r s t db a =
    elim (Bool-cases (
      is_unique text_eq sandbox_key (sandbox_row now r ∷ db.sandboxes)
      && is_unique nat_eq slot_key (sandbox_row now r ∷ db.sandboxes))) [
        | inr clash ↦ rw clash a
        | inl fits ↦ rw fits (IsAudited-same id s t db _ a (skips (ground arith)) refl refl)
      ]
  where
    skips :
        is_unique text_eq sandbox_key (sandbox_row now r ∷ db.sandboxes) ≡ true
        → state_in id (sandbox_row now r ∷ db.sandboxes) ≡ state_in id db.sandboxes
    skips u =
        later_state id (sandbox_row now r) db.sandboxes
          (absent-create id (sandbox_row now r) db.sandboxes t a.present u)
