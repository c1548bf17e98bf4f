-- ===== src/Store/Transition/History.antt =====
-- ListTransitions: the AUTOINCREMENT ids make its order the order of the updates.
use novita_box.Common.{ℕ, suc, ◌≤◌, String, Bool, true, ◌≡◌, List, [], ◌∷◌, ◌++◌, arith, All}
use novita_box.Store.Table.{select}
use novita_box.Store.Order.Laws.{IsOrdered, order_by-ordered}
use novita_box.Store.Records.{TransitionRecord, Db}
use novita_box.Store.Transition.{is_about, oldest_first, list_transitions}

-- The ids of the log rise, and none is above the counter.
pub record IsLogged (db : Db) : Type 0 where
  pub ordered : IsOrdered oldest_first db.transitions
  pub counted : All (λ (t : TransitionRecord). t.id ≤ db.last_transition) db.transitions

module _ (p : TransitionRecord → Bool) where
  All-select :
      (t : TransitionRecord) (ts : List TransitionRecord)
      → All (λ u. oldest_first t u ≡ true) ts
      → All (λ u. oldest_first t u ≡ true) (select p ts)
  unfolding select
  All-select t [] h = tt
  All-select t (u ∷ ts) h = ground (arith, All-select t ts)

  IsOrdered-select :
      (ts : List TransitionRecord)
      → IsOrdered oldest_first ts
      → IsOrdered oldest_first (select p ts)
  unfolding select
  IsOrdered-select [] h = tt
  IsOrdered-select (t ∷ ts) h = ground (arith, All-select t ts, IsOrdered-select ts)

-- Where the ids rise, listing the transitions of a resource returns them in the order in which they
-- were appended.
pub list_transitions-select :
    (resource_type resource_id : String) (db : Db)
    → IsLogged db
    → list_transitions resource_type resource_id db
      ≡ select (is_about resource_type resource_id) db.transitions
unfolding list_transitions
list_transitions-select resource_type resource_id db h =
    order_by-ordered oldest_first _
      (IsOrdered-select (is_about resource_type resource_id) db.transitions h.ordered)

All-append :
    (n : ℕ) (t : TransitionRecord) (ts : List TransitionRecord)
    → All (λ (u : TransitionRecord). u.id ≤ n) ts
    → t.id ≡ suc n
    → All (λ (u : TransitionRecord). u.id ≤ suc n) (ts ++ t ∷ [])
All-append n t [] h e = (omega arith, tt)
All-append n t (u ∷ ts) h e = (omega arith, All-append n t ts h.1 e)

All-oldest :
    (n : ℕ) (s t : TransitionRecord) (ts : List TransitionRecord)
    → All (λ u. oldest_first s u ≡ true) ts
    → s.id ≤ n
    → t.id ≡ suc n
    → All (λ u. oldest_first s u ≡ true) (ts ++ t ∷ [])
All-oldest n s t [] h le e = (ground arith, tt)
All-oldest n s t (u ∷ ts) h le e = (h.0, All-oldest n s t ts h.1 le e)

IsOrdered-append :
    (n : ℕ) (t : TransitionRecord) (ts : List TransitionRecord)
    → IsOrdered oldest_first ts
    → All (λ (u : TransitionRecord). u.id ≤ n) ts
    → t.id ≡ suc n
    → IsOrdered oldest_first (ts ++ t ∷ [])
IsOrdered-append n t [] o c e = (tt, tt)
IsOrdered-append n t (u ∷ ts) o c e =
    (All-oldest n u t ts o.0 c.0 e, IsOrdered-append n t ts o.1 c.1 e)

-- Appending a transition with the next id keeps the log in order.
pub IsLogged-append :
    (t : TransitionRecord) (db db' : Db)
    → IsLogged db
    → t.id ≡ suc db.last_transition
    → db'.transitions ≡ db.transitions ++ t ∷ []
    → db'.last_transition ≡ suc db.last_transition
    → IsLogged db'
IsLogged-append t db db' h e ts n = record {
  ordered = rw ts (IsOrdered-append db.last_transition t db.transitions h.ordered h.counted e);
  counted = rw (ts, n) (All-append db.last_transition t db.transitions h.counted e);
}
