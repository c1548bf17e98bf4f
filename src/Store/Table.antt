-- ===== src/Store/Table.antt =====
-- The SQL statements that the store uses, over a table that is a list of rows: SELECT, UPDATE and
-- DELETE under a WHERE test, and unique indexes.
pub mod Laws
use novita_box.Common.{
  ℕ, suc, Bool, true, false, not, ◌&&◌, ◌||◌, Option, none, some, List, [], ◌∷◌, if◌then◌else◌, Eq,
}

module _ {ℓ} {R : Type ℓ} where
  -- SELECT ... WHERE p, the first row: QueryRow
  unfoldable pub find : (R → Bool) → List R → Option R
  find p [] = none
  find p (r ∷ rs) = if p r then some r else find p rs

  -- SELECT ... WHERE p
  unfoldable pub select : (R → Bool) → List R → List R
  select p [] = []
  select p (r ∷ rs) = let rest = select p rs in if p r then r ∷ rest else rest

  -- UPDATE ... SET f WHERE p
  unfoldable pub update : (R → Bool) → (R → R) → List R → List R
  update p f [] = []
  update p f (r ∷ rs) = (if p r then f r else r) ∷ update p f rs

  -- DELETE WHERE p
  unfoldable pub delete : (R → Bool) → List R → List R
  delete p [] = []
  delete p (r ∷ rs) = let rest = delete p rs in if p r then rest else r ∷ rest

  -- RowsAffected
  unfoldable pub affected : (R → Bool) → List R → ℕ
  affected p [] = 0
  affected p (r ∷ rs) = let rest = affected p rs in if p r then suc rest else rest

-- A unique index: a row has an entry, or is left out of a partial index.
module _ {ℓ} {R K : Type ℓ} (eq : Eq K) (entry : R → Option K) where
  unfoldable pub clash : Option K → Option K → Bool
  clash (some a) (some b) = eq.beq a b
  clash _ _ = false

  unfoldable pub holds : Option K → List R → Bool
  unfolding clash
  holds k [] = false
  holds k (r ∷ rs) = clash (entry r) k || holds k rs

  unfoldable pub is_unique : List R → Bool
  unfolding holds
  is_unique [] = true
  is_unique (r ∷ rs) = not (holds (entry r) rs) && is_unique rs
