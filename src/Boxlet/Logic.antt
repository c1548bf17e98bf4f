-- ===== src/Boxlet/Logic.antt =====
-- Triples for the runs of handlers, and the triples of the shared steps.
use novita_box.Common.{
  ℕ, ◌≡◌, sym, ◌∙◌, String, Bool, true, false, arith, ok, err, Result, Bool-cases, Result-cases,
  inl, inr, if◌then◌else◌,
}
use novita_box.Store.Records.{State, state_eq, Db, StoreError, Tx}
use novita_box.Network.Net.{NetError}
use novita_box.Store.Sandbox.{scan_sandbox}
use novita_box.Boxlet.Exec.{
  Env, World, Exec, Effect, ServiceError, next, cleaned, written, answered, from_store,
  missing_status, query, call, return, raise, ignore, on_error, from_net,
}
use mathlib.Core.Path.{subst}
use novita_box.Boxlet.Steps.{unless_missing, found_sandbox, set_sandbox_state}
use novita_box.Boxlet.Holds.{Holds, get_sandbox-Holds, row-id, update_sandbox_state-Holds}

-- A result with a value satisfies `post`, and one with an error `bad`, each with the world after it.
abbrev pub Outcome :
    {A : Type 0} → (A → World → Type 0) → (World → Type 0) → Result ServiceError A × World → Type 0
Outcome post bad (ok a, w) = post a w
Outcome post bad (err e, w) = bad w

pub record Ends {A : Type 0} (post : A → World → Type 0) (bad : World → Type 0)
    (r : Result ServiceError A × World) : Type 0 where
  pub ends : Outcome post bad r

abbrev pub Never : World → Type 0
Never w = ⊥

-- the sandbox's row, in the database of a world
abbrev pub At : String → State → ℕ → World → Type 0
At id st s w = Holds id st s w.db

module _ {A B : Type 0} where
  pub next-Ends :
      {post : A → World → Type 0} {after : B → World → Type 0} {bad : World → Type 0}
      (r : Result ServiceError A × World) (k : A → Exec B)
      → Ends post bad r
      → ((a : A) (w : World) → post a w → Ends after bad (k a w))
      → Ends after bad (next r k)
  unfolding next
  next-Ends (ok a, w) k h rest = rest a w h.ends
  next-Ends (err e, w) k h rest = record { ends = h.ends }

module _ {A : Type 0} where
  pub cleaned-Ends :
      {post : A → World → Type 0} {between bad : World → Type 0} (r : Result ServiceError A × World)
      (cleanup : Exec (Unit {0}))
      → Ends post between r
      → ((w : World) → between w → bad (cleanup w).1)
      → Ends post bad (cleaned r cleanup)
  unfolding cleaned
  cleaned-Ends (ok a, w) cleanup h clean = record { ends = h.ends }
  cleaned-Ends (err e, w) cleanup h clean = record { ends = clean w h.ends }

  -- the world after a run whose result is dropped
  pub Ends-world :
      {post : A → World → Type 0} {bad good : World → Type 0} (r : Result ServiceError A × World)
      → Ends post bad r
      → ((a : A) (w : World) → post a w → good w)
      → ((w : World) → bad w → good w)
      → good r.1
  Ends-world (ok a, w) h good_end bad_end = good_end a w h.ends
  Ends-world (err e, w) h good_end bad_end = bad_end w h.ends

  -- the branch that a test takes
  pub then-Ends :
      {post : A → World → Type 0} {bad : World → Type 0} (b : Bool) (m n : Exec A) (w : World)
      → b ≡ true
      → Ends post bad (m w)
      → Ends post bad ((if b then m else n) w)
  then-Ends b m n w e h = rw e h

  pub else-Ends :
      {post : A → World → Type 0} {bad : World → Type 0} (b : Bool) (m n : Exec A) (w : World)
      → b ≡ false
      → Ends post bad (n w)
      → Ends post bad ((if b then m else n) w)
  else-Ends b m n w e h = rw e h

  pub sure-world :
      {good : World → Type 0} (r : Result ServiceError A × World)
      → Ends (λ a. good) Never r
      → good r.1
  sure-world r h = Ends-world r h (λ a w q. q) (λ w q. absurd q)

  -- weaker conclusions
  pub Ends-weaken :
      {post post' : A → World → Type 0} {bad bad' : World → Type 0}
      (r : Result ServiceError A × World)
      → Ends post bad r
      → ((a : A) (w : World) → post a w → post' a w)
      → ((w : World) → bad w → bad' w)
      → Ends post' bad' r
  Ends-weaken (ok a, w) h good_end bad_end = record { ends = good_end a w h.ends }
  Ends-weaken (err e, w) h good_end bad_end = record { ends = bad_end w h.ends }

  pub written-ok :
      {post : A → World → Type 0} {bad : World → Type 0} (t : Tx A) (w : World) (a : A) (db : Db)
      → t ≡ (ok a, db)
      → post a (record w { db = db })
      → Ends post bad (written t w)
  unfolding written from_store
  written-ok {post} {bad} t w a db e h =
      subst (λ (x : Tx A). Ends post bad (written x w)) (sym e) (record { ends = h })

  -- a status in place of an error that does not come
  pub missing_status-ok :
      {post : A → World → Type 0} (r : Result ServiceError A × World)
      → Ends post Never r
      → Ends post Never (missing_status r)
  unfolding missing_status
  missing_status-ok (ok a, w) h = record { ends = h.ends }
  missing_status-ok (err e, w) h = absurd h.ends

-- an error that is dropped where it says that there is no row
pub unless_missing-ok :
    {post : Unit {0} → World → Type 0} (r : Result ServiceError (Unit {0}) × World)
    → Ends post Never r
    → Ends post Never (unless_missing r)
unfolding unless_missing
unless_missing-ok (ok a, w) h = record { ends = h.ends }
unless_missing-ok (err e, w) h = absurd h.ends

-- A run that leaves the database as it is, with whatever result.
abbrev pub IsQuiet : {A : Type 0} → Exec A → Type 1
IsQuiet m = (P : Db → Type 0) (w : World) → P w.db → Ends (λ a w'. P w'.db) (λ w'. P w'.db) (m w)

-- A call of the world outside leaves the database as it is.
module _ (env : Env) where
  pub call-IsQuiet : (e : Effect) → IsQuiet (call env e)
  unfolding answered
  call-IsQuiet e P w h = elim (Bool-cases (env.answer w e)) [
    | inl yes_ ↦ rw yes_ (record { ends = h })
    | inr no_ ↦ rw no_ (record { ends = h })
  ]

pub return-IsQuiet : {A : Type 0} (a : A) → IsQuiet (return a)
return-IsQuiet a P w h = record { ends = h }

pub raise-IsQuiet : {A : Type 0} (e : ServiceError) → IsQuiet (raise {A = A} e)
raise-IsQuiet e P w h = record { ends = h }

pub from_net-IsQuiet : {A : Type 0} (r : Result NetError A) → IsQuiet (from_net r)
unfolding from_net
from_net-IsQuiet (ok a) P w h = record { ends = h }
from_net-IsQuiet (err e) P w h = record { ends = h }

pub from_net-ok :
    {A B : Type 0} {post : B → World → Type 0} {bad : World → Type 0} (r : Result NetError A)
    (a : A) (k : A → Exec B) (w : World)
    → r ≡ ok a
    → Ends post bad (k a w)
    → Ends post bad (next (from_net r w) k)
unfolding from_net next
from_net-ok r a k w e h = rw e h

pub query-IsQuiet : {A : Type 0} (f : Db → Result StoreError A) → IsQuiet (query f)
unfolding from_store
query-IsQuiet f P w h = elim (Result-cases (f w.db)) [
  | inl (e, bad) ↦ rw bad (from_err e P w h)
  | inr (a, good) ↦ rw good (from_value a P w h)
]
  where
    from_err :
        {A : Type 0} (e : StoreError) (P : Db → Type 0) (w : World)
        → P w.db
        → Ends (λ (a : A) w'. P w'.db) (λ w'. P w'.db) (from_store (err e), w)
    from_err e P w h = record { ends = h }

    from_value :
        {A : Type 0} (a : A) (P : Db → Type 0) (w : World)
        → P w.db
        → Ends (λ (a : A) w'. P w'.db) (λ w'. P w'.db) (from_store (ok a), w)
    from_value a P w h = record { ends = h }

pub >>=-IsQuiet :
    {A B : Type 0} (m : Exec A) (k : A → Exec B)
    → IsQuiet m
    → ((a : A) → IsQuiet (k a))
    → IsQuiet (λ w. next (m w) k)
>>=-IsQuiet m k h rest P w p = next-Ends _ _ (h P w p) (λ a w' p'. rest a P w' p')

pub if-IsQuiet :
    {A : Type 0} (b : Bool) (m n : Exec A) → IsQuiet m → IsQuiet n → IsQuiet (if b then m else n)
if-IsQuiet true m n h k = h
if-IsQuiet false m n h k = k

pub ignore-IsQuiet : {A : Type 0} (m : Exec A) → IsQuiet m → IsQuiet (ignore m)
ignore-IsQuiet m h P w p = record { ends = Ends-world (m w) (h P w p) (λ a w' q. q) (λ w' q. q) }

state_eq-true : (a b : State) → state_eq a b ≡ true → a ≡ b
unfolding state_eq
state_eq-true a b h = ground arith

module _ (env : Env) {id : String} {st : State} {s : ℕ} where
  -- A read of the sandbox finds its row.
  pub found_sandbox-Ends :
      (w : World)
      → At id st s w
      → Ends
          (λ r w'. At id st s w' × (r.id ≡ id) × (r.state ≡ st) × (r.network_slot ≡ s))
          Never
          (found_sandbox env id w)
  unfolding from_store missing_status scan_sandbox
  found_sandbox-Ends w h =
      rw (get_sandbox-Holds h) (record { ends = (h, row-id h, h.state, h.slot) })

  -- SetSandboxState of a sandbox that is there succeeds.
  pub set_sandbox_state-Ends :
      (to : State) (action : String) (w : World)
      → At id st s w
      → Ends (λ a. At id to s) Never (set_sandbox_state env id to action w)
  unfolding set_sandbox_state
  set_sandbox_state-Ends to action w h =
      next-Ends _ _ (found_sandbox-Ends w h) (λ r w' (there, _, same, _).
        elim (Bool-cases (state_eq r.state to)) [
          | inl already ↦ rw already (record {
            ends =
                subst (λ t. Holds id t s w'.db) (sym same ∙ state_eq-true r.state to already) there;
          })
          | inr differs ↦
              rw (differs, same)
                (let (db', done, moved) =
                    update_sandbox_state-Holds there (env.clock w') to action in
                  missing_status-ok _ (written-ok _ w' tt db' done moved))
        ])

-- A run that keeps a fact about the database, with whatever result.
abbrev pub Keeps : {A : Type 0} → (Db → Type 0) → Exec A → Type 0
Keeps P m = (w : World) → P w.db → Ends (λ a w'. P w'.db) (λ w'. P w'.db) (m w)

module _ (P : Db → Type 0) where
  pub >>=-Keeps :
      {A B : Type 0} (m : Exec A) (k : A → Exec B)
      → Keeps P m
      → ((a : A) → Keeps P (k a))
      → Keeps P (λ w. next (m w) k)
  >>=-Keeps m k h rest w p = next-Ends _ _ (h w p) (λ a w' p'. rest a w' p')

  pub if-Keeps :
      {A : Type 0} (b : Bool) (m n : Exec A) → Keeps P m → Keeps P n → Keeps P (if b then m else n)
  if-Keeps true m n h k = h
  if-Keeps false m n h k = k

  pub on_error-Keeps :
      {A : Type 0} (m : Exec A) (cleanup : Exec (Unit {0}))
      → Keeps P m
      → Keeps P cleanup
      → Keeps P (on_error m cleanup)
  on_error-Keeps m cleanup h k w p =
      cleaned-Ends _ _ (h w p) (λ w' p'. Ends-world _ (k w' p') (λ a w'' q. q) (λ w'' q. q))

  pub ignore-Keeps : {A : Type 0} (m : Exec A) → Keeps P m → Keeps P (ignore m)
  ignore-Keeps m h w p = record { ends = Ends-world (m w) (h w p) (λ a w' q. q) (λ w' q. q) }
