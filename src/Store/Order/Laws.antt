-- ===== src/Store/Order/Laws.antt =====
-- Sorting keeps the rows, and does nothing to rows that are in order.
use mathlib.Core.List.{Perm}
use mathlib.Core.List.Perm
use novita_box.Common.{Bool, true, ◌≡◌, refl, List, [], ◌∷◌, arith, Bool-cases, inl, inr, All}
use novita_box.Store.Order.{insert, order_by}

module _ {ℓ} {R : Type ℓ} (before : R → R → Bool) where
  insert-perm : (x : R) (ys : List R) → Perm (insert before x ys) (x ∷ ys)
  unfolding insert
  insert-perm x [] = Perm.refl (x ∷ [])
  insert-perm x (y ∷ ys) = elim (Bool-cases (before x y)) [
    | inl first ↦ rw first (Perm.refl (x ∷ y ∷ ys))
    | inr later ↦ rw later (Perm.trans (Perm.cons y (insert-perm x ys)) (Perm.swap x y ys))
  ]

  -- ORDER BY neither drops nor repeats a row.
  pub order_by-perm : (rows : List R) → Perm (order_by before rows) rows
  unfolding order_by
  order_by-perm [] = Perm.refl []
  order_by-perm (x ∷ xs) =
      Perm.trans (insert-perm x (order_by before xs)) (Perm.cons x (order_by-perm xs))

  -- Each row comes before all that follow it.
  abbrev pub IsOrdered : List R → Type 0
  IsOrdered [] = Unit
  IsOrdered (x ∷ xs) = All (λ y. before x y ≡ true) xs × IsOrdered xs

  insert-first :
      (x : R) (ys : List R) → All (λ y. before x y ≡ true) ys → insert before x ys ≡ x ∷ ys
  unfolding insert
  insert-first x [] h = refl
  insert-first x (y ∷ ys) h = ground arith

  pub order_by-ordered : (rows : List R) → IsOrdered rows → order_by before rows ≡ rows
  unfolding order_by
  order_by-ordered [] h = refl
  order_by-ordered (x ∷ xs) h = rw (order_by-ordered xs h.1) (insert-first x xs h.0)
