-- ===== src/Store/Table/Laws.antt =====
-- Laws of the table statements.
use novita_box.Common.{
  ◌≡◌, refl, ◌<◌, inl, inr, Bool, true, false, Option, none, some, List, [], ◌∷◌, arith, Bool-cases,
  Eq,
}
use mathlib.Core.Option
use novita_box.Store.Table.{find, select, update, delete, affected, holds, is_unique}

module _ {ℓ} {R : Type ℓ} (p : R → Bool) where
  pub find-satisfies : (rs : List R) {r : R} → find p rs ≡ some r → p r ≡ true
  unfolding find
  find-satisfies [] h = ground arith
  find-satisfies (x ∷ rs) {r} h = elim (Bool-cases (p x)) [
    | inl yes_ ↦ ground arith
    | inr no_ ↦ find-satisfies rs (ground arith)
  ]

  -- RowsAffected is 0 exactly when the query for one row finds none.
  pub affected-find-none : (rs : List R) → find p rs ≡ none → affected p rs ≡ 0
  unfolding find affected
  affected-find-none [] h = refl
  affected-find-none (x ∷ rs) h = ground (arith, affected-find-none rs)

  pub affected-find-some : (rs : List R) (r : R) → find p rs ≡ some r → 0 < affected p rs
  unfolding find affected
  affected-find-some [] r h = ground arith
  affected-find-some (x ∷ rs) r h = ground (arith, affected-find-some rs r)

  -- An update whose rows stay matched is seen by the query.
  pub find-update :
      (f : R → R) (rs : List R)
      → ((r : R) → p (f r) ≡ p r)
      → find p (update p f rs) ≡ Option.map f (find p rs)
  unfolding find update
  find-update f [] h = refl
  find-update f (x ∷ rs) h = ground (arith, h x, find-update f rs h)

module _ {ℓ} {R : Type ℓ} (p q : R → Bool) where
  -- An update of other rows is not.
  pub find-update_other :
      (f : R → R) (rs : List R)
      → ((r : R) → p r ≡ true → (q r ≡ false) × (q (f r) ≡ false))
      → find q (update p f rs) ≡ find q rs
  unfolding find update
  find-update_other f [] h = refl
  find-update_other f (x ∷ rs) h = ground (arith, h x, find-update_other f rs h)

  pub find-delete_other :
      (rs : List R) → ((r : R) → p r ≡ true → q r ≡ false) → find q (delete p rs) ≡ find q rs
  unfolding find delete
  find-delete_other [] h = refl
  find-delete_other (x ∷ rs) h = ground (arith, h x, find-delete_other rs h)

module _ {ℓ} {R : Type ℓ} (p : R → Bool) where
  pub find-delete : (rs : List R) → find p (delete p rs) ≡ none
  unfolding find delete
  find-delete [] = refl
  find-delete (x ∷ rs) = ground (arith, find-delete rs)

module _ {ℓ} {R : Type ℓ} (p : R → Bool) where
  pub select-delete : (rs : List R) → select p (delete p rs) ≡ []
  unfolding select delete
  select-delete [] = refl
  select-delete (x ∷ rs) = ground (arith, select-delete rs)

module _ {ℓ} {R : Type ℓ} (p q : R → Bool) where
  -- Deleted rows are the only ones that a query misses.
  pub select-delete_other :
      (rs : List R) → ((r : R) → p r ≡ true → q r ≡ false) → select q (delete p rs) ≡ select q rs
  unfolding select delete
  select-delete_other [] h = refl
  select-delete_other (x ∷ rs) h = ground (arith, h x, select-delete_other rs h)

module _ {ℓ} {R K : Type ℓ} (eq : Eq K) (entry : R → Option K) where
  -- DELETE keeps an index unique.
  holds-delete :
      (p : R → Bool) (k : Option K) (rs : List R)
      → holds eq entry k rs ≡ false
      → holds eq entry k (delete p rs) ≡ false
  unfolding holds delete
  holds-delete p k [] h = refl
  holds-delete p k (x ∷ rs) h = ground (arith, holds-delete p k rs)

  pub is_unique-delete :
      (p : R → Bool) (rs : List R)
      → is_unique eq entry rs ≡ true
      → is_unique eq entry (delete p rs) ≡ true
  unfolding is_unique delete
  is_unique-delete p [] h = refl
  is_unique-delete p (x ∷ rs) h = ground (arith, holds-delete p (entry x) rs, is_unique-delete p rs)

  -- So does an UPDATE that leaves the indexed column alone.
  holds-update :
      (p : R → Bool) (f : R → R) (k : Option K) (rs : List R)
      → ((r : R) → entry (f r) ≡ entry r)
      → holds eq entry k (update p f rs) ≡ holds eq entry k rs
  unfolding holds update
  holds-update p f k [] h = refl
  holds-update p f k (x ∷ rs) h = ground (arith, h x, holds-update p f k rs h)

  pub is_unique-update :
      (p : R → Bool) (f : R → R) (rs : List R)
      → ((r : R) → entry (f r) ≡ entry r)
      → is_unique eq entry (update p f rs) ≡ is_unique eq entry rs
  unfolding is_unique update
  is_unique-update p f [] h = refl
  is_unique-update p f (x ∷ rs) h =
      ground (arith, h x, holds-update p f (entry x) rs h, is_unique-update p f rs h)

  -- An UPDATE that takes rows out of a partial index keeps it unique.
  pub holds-none : (rs : List R) → holds eq entry none rs ≡ false
  unfolding holds
  holds-none [] = refl
  holds-none (x ∷ rs) = ground (arith, holds-none rs)

  holds-clear :
      (p : R → Bool) (f : R → R) (k : Option K) (rs : List R)
      → ((r : R) → entry (f r) ≡ none)
      → holds eq entry k rs ≡ false
      → holds eq entry k (update p f rs) ≡ false
  unfolding holds update
  holds-clear p f k [] h e = refl
  holds-clear p f k (x ∷ rs) h e = ground (arith, h x, holds-clear p f k rs h)

  pub is_unique-clear :
      (p : R → Bool) (f : R → R) (rs : List R)
      → ((r : R) → entry (f r) ≡ none)
      → is_unique eq entry rs ≡ true
      → is_unique eq entry (update p f rs) ≡ true
  unfolding is_unique update
  is_unique-clear p f [] h u = refl
  is_unique-clear p f (x ∷ rs) h u = ground (
    arith,
    h x,
    holds-none (update p f rs),
    holds-clear p f (entry x) rs h,
    is_unique-clear p f rs h,
  )
