-- ===== src/Store/Order.antt =====
-- ORDER BY: a sort of the selected rows by an order on rows.
pub mod Laws
use Prim.Native.Nat.{Ordering}
use Prim.Native.String.{compare}
use novita_box.Common.{
  String, Bool, true, false, ◌||◌, ◌&&◌, Option, none, some, List, [], ◌∷◌, if◌then◌else◌,
}
use novita_box.Common.Int.{ℤ, ltb_ℤ, eq_ℤ}

module _ {ℓ} {R : Type ℓ} (before : R → R → Bool) where
  unfoldable pub insert : R → List R → List R
  insert x [] = x ∷ []
  insert x (y ∷ ys) = if before x y then x ∷ y ∷ ys else y ∷ insert x ys

  unfoldable pub order_by : List R → List R
  unfolding insert
  order_by [] = []
  order_by (x ∷ xs) = insert x (order_by xs)

-- LIMIT 1
abbrev pub limit_one {ℓ} : {R : Type ℓ} → List R → Option R
limit_one [] = none
limit_one (x ∷ xs) = some x

abbrev leb_text : String → String → Bool
leb_text a b = elim (compare a b) [ Ordering.gt ↦ false | _ ↦ true ]

-- created_at DESC, id DESC, for a table with these columns
abbrev pub newest_first : {R : Type 0} → (R → ℤ) → (R → String) → R → R → Bool
newest_first created id a b =
    ltb_ℤ (created b) (created a) || eq_ℤ (created a) (created b) && leb_text (id b) (id a)
