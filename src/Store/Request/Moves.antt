-- ===== src/Store/Request/Moves.antt =====
-- What UpdateSandboxState does to the states of the sandboxes, and chains of transitions.
use mathlib.Core.Option
use novita_box.Common.{
  ◌<◌, ◌≡◌, ◌≢◌, refl, sym, ◌∙◌, inl, inr, String, Bool, true, false, Option, some, List, [], ◌∷◌,
  ◌++◌, arith, str_eq, eq_iff, Bool-cases, text_eq,
}
use novita_box.Common.Int.{ℤ}
use novita_box.Store.Table.{find, select, update, affected, holds, is_unique}
use novita_box.Store.Records.{State, state_eq, SandboxRecord, TransitionRecord, sandbox_key}
use novita_box.Store.Sandbox.{has_id, in_state}

abbrev pub state_in : String → List SandboxRecord → Option State
state_in id rows = Option.map (λ (r : SandboxRecord). r.state) (find (has_id id) rows)

-- `log` leads from `s` to `t`, each step from the state where the one before it ended.
abbrev pub IsChain : State → List TransitionRecord → State → Type 0
IsChain s [] t = s ≡ t
IsChain s (x ∷ log) t = (x.from_state ≡ s) × IsChain x.to_state log t

pub IsChain-append :
    (s u : State) (log : List TransitionRecord) (x : TransitionRecord)
    → IsChain s log u
    → x.from_state ≡ u
    → IsChain s (log ++ x ∷ []) x.to_state
IsChain-append s u [] x c e = (e ∙ sym c, refl)
IsChain-append s u (y ∷ log) x c e = (c.0, IsChain-append y.to_state u log x c.1 e)

pub select-append :
    (p : TransitionRecord → Bool) (ts : List TransitionRecord) (t : TransitionRecord)
    → select p (ts ++ t ∷ []) ≡ select p ts ++ select p (t ∷ [])
unfolding select
select-append p [] t = refl
select-append p (u ∷ ts) t = ground (arith, select-append p ts t)

-- An update that leaves ids and states alone leaves the states of all sandboxes alone.
pub state_in-update :
    (id : String) (p : SandboxRecord → Bool) (f : SandboxRecord → SandboxRecord)
    (rows : List SandboxRecord)
    → ((r : SandboxRecord) → ((f r).id ≡ r.id) × ((f r).state ≡ r.state))
    → state_in id (update p f rows) ≡ state_in id rows
unfolding find update
state_in-update id p f [] h = refl
state_in-update id p f (r ∷ rows) h = ground (arith, h r, state_in-update id p f rows h)

abbrev pub moved : ℤ → State → SandboxRecord → SandboxRecord
moved now to r = record r { state = to; updated_at = now }

-- The primary key makes the row that UpdateSandboxState matches the row of the sandbox.
pub no-match :
    (id : String) (from : State) (rows : List SandboxRecord)
    → holds text_eq sandbox_key (some id) rows ≡ false
    → affected (in_state id from) rows ≡ 0
unfolding holds affected
no-match id from [] h = refl
no-match id from (r ∷ rows) h = ground (arith, no-match id from rows)

state_eq-true : (a b : State) → state_eq a b ≡ true → a ≡ b
unfolding state_eq
state_eq-true a b h = ground arith

first_state :
    (id : String) (r : SandboxRecord) (rows : List SandboxRecord) (t : State)
    → str_eq r.id id ≡ true
    → state_in id (r ∷ rows) ≡ some t
    → r.state ≡ t
unfolding find
first_state id r rows t e h = ground arith

pub later_state :
    (id : String) (r : SandboxRecord) (rows : List SandboxRecord)
    → str_eq r.id id ≡ false
    → state_in id (r ∷ rows) ≡ state_in id rows
unfolding find
later_state id r rows e = ground arith

pub matched-state :
    (id : String) (from t : State) (rows : List SandboxRecord)
    → is_unique text_eq sandbox_key rows ≡ true
    → state_in id rows ≡ some t
    → 0 < affected (in_state id from) rows
    → from ≡ t
unfolding is_unique affected
matched-state id from t [] u h n = absurd (omega arith)
matched-state id from t (r ∷ rows) u h n = elim (Bool-cases (str_eq r.id id)) [
  | inl here ↦
      let now : r.state ≡ t = first_state id r rows t here h in
      ground (arith, eq_iff r.id id, no-match id from rows, state_eq-true r.state from)
  | inr later ↦ ground (arith, later_state id r rows later, matched-state id from t rows)
]

pub matched-update :
    (now : ℤ) (id : String) (from to : State) (rows : List SandboxRecord)
    → state_in id rows ≡ some from
    → state_in id (update (in_state id from) (moved now to) rows) ≡ some to
unfolding find update state_eq
matched-update now id from to [] h = ground arith
matched-update now id from to (r ∷ rows) h = ground (arith, matched-update now id from to rows)

pub other-update :
    (now : ℤ) (id j : String) (from to : State) (rows : List SandboxRecord)
    → j ≢ id
    → state_in id (update (in_state j from) (moved now to) rows) ≡ state_in id rows
unfolding find update
other-update now id j from to [] ne = refl
other-update now id j from to (r ∷ rows) ne =
    ground (arith, eq_iff r.id id, eq_iff r.id j, other-update now id j from to rows ne)
