-- ===== src/Store/Build/Latest.antt =====
-- GetLatestTemplateBuild against the builds of the template, in any order.
use mathlib.Core.List.{Memᴰ}
use novita_box.Common.{
  String, Bool, true, false, ◌≡◌, refl, ◌⊎◌, inl, inr, List, [], ◌∷◌, ok, err, arith, ◌||◌, ◌&&◌,
  All, Bool-cases,
}
use novita_box.Common.Int.{
  ℤ, ◌≤ℤ◌, ≤ℤ_refl, ≤ℤ_trans, ltb_ℤ-false, ltb_ℤ-true, eq_ℤ-true, ltb_ℤ, eq_ℤ,
}
use novita_box.Store.Table.{select}
use novita_box.Store.Order.{insert, order_by, limit_one}
use novita_box.Store.Records.{TemplateBuildRecord, Db, not_found}
use novita_box.Store.Sandbox.{one_row}
use novita_box.Store.Artifact.Templates.{of_template}
use novita_box.Store.Build.{newest_build, get_latest_template_build}

abbrev NoNewer : TemplateBuildRecord → List TemplateBuildRecord → Type 0
NoNewer b = All (λ (x : TemplateBuildRecord). x.created_at ≤ℤ b.created_at)

NoNewer-trans :
    (a b : TemplateBuildRecord) (rows : List TemplateBuildRecord)
    → a.created_at ≤ℤ b.created_at
    → NoNewer a rows
    → NoNewer b rows
NoNewer-trans a b [] h n = tt
NoNewer-trans a b (x ∷ rows) h n =
    (≤ℤ_trans x.created_at a.created_at b.created_at n.0 h, NoNewer-trans a b rows h n.1)

-- The order by which builds are listed goes by their times first.
by_time_le : (x y : ℤ) (by_id : Bool) → ltb_ℤ y x || eq_ℤ x y && by_id ≡ true → y ≤ℤ x
by_time_le x y by_id h = ground (arith, ltb_ℤ-true y x, eq_ℤ-true x y)

by_time_later : (x y : ℤ) (by_id : Bool) → ltb_ℤ y x || eq_ℤ x y && by_id ≡ false → x ≤ℤ y
by_time_later x y by_id h = ground (arith, ltb_ℤ-false y x)

-- What the head of the sorted rows is: one of the rows, and none is newer.
abbrev IsLatest : TemplateBuildRecord → List TemplateBuildRecord → Type 0
IsLatest b rows = Memᴰ b rows × NoNewer b rows

-- The head of a list that is sorted into, or no row at all.
abbrev Heads : List TemplateBuildRecord → List TemplateBuildRecord → Type 0
Heads [] rows = rows ≡ []
Heads (b ∷ _) rows = IsLatest b rows

insert-Heads :
    (x : TemplateBuildRecord) (ys rows : List TemplateBuildRecord)
    → Heads ys rows
    → Heads (insert newest_build x ys) (x ∷ rows)
unfolding insert
insert-Heads x [] rows h = rw h (Memᴰ.head refl, (≤ℤ_refl x.created_at, tt))
insert-Heads x (y ∷ ys) rows h = elim (Bool-cases (newest_build x y)) [
  | inl first ↦ rw first (
    Memᴰ.head refl,
    (
      ≤ℤ_refl x.created_at,
      NoNewer-trans y x rows (by_time_le x.created_at y.created_at _ first) h.1,
    ),
  )
  | inr later ↦ rw later (Memᴰ.tail h.0, (by_time_later x.created_at y.created_at _ later, h.1))
]

order_by-Heads : (rows : List TemplateBuildRecord) → Heads (order_by newest_build rows) rows
unfolding order_by
order_by-Heads [] = refl
order_by-Heads (x ∷ rows) = insert-Heads x (order_by newest_build rows) rows (order_by-Heads rows)

result_of :
    (sorted rows : List TemplateBuildRecord)
    → Heads sorted rows
    → ((one_row {A = TemplateBuildRecord} (λ r. r) (limit_one sorted) ≡ err not_found)
        × (rows ≡ []))
      ⊎ ((b : TemplateBuildRecord) × (one_row (λ r. r) (limit_one sorted) ≡ ok b)
          × Memᴰ b rows
          × NoNewer b rows)
result_of [] rows h = inl (refl, h)
result_of (b ∷ sorted) rows h = inr (b, refl, h.0, h.1)

-- For every template, either it has no build and the answer is ErrNotFound, or the answer is one of
-- its builds, and none of its builds was created later.
pub get_latest_template_build-newest :
    (template_id : String) (db : Db)
    → let rows = select (of_template template_id) db.builds in
      ((get_latest_template_build template_id db ≡ err not_found) × (rows ≡ []))
      ⊎ ((b : TemplateBuildRecord) × (get_latest_template_build template_id db ≡ ok b)
          × Memᴰ b rows
          × All (λ (x : TemplateBuildRecord). x.created_at ≤ℤ b.created_at) rows)
unfolding get_latest_template_build
get_latest_template_build-newest template_id db =
    let rows = select (of_template template_id) db.builds in
    result_of (order_by newest_build rows) rows (order_by-Heads rows)
