-- ===== src/Store/Sandbox/SlotSearch.antt =====
-- The loop of AssignSandboxNetworkSlot finds the least free slot.
use novita_box.Common.{
  ℕ, zero, suc, ◌+◌, ◌%◌, ◌^◌, ◌≤◌, ◌<◌, ◌≡◌, refl, ◌⊎◌, inl, inr, true, false, Option, some, List,
  [], ◌∷◌, arith, leb, ◌==◌, Bool-cases,
}
use novita_box.Store.Records.{SandboxRecord}
use novita_box.Store.Sandbox.{contains, used_slots, first_free}
use novita_box.Store.Table.{select}

-- No free slot up to the maximum, or the least one.
abbrev pub IsLeastFree : ℕ → List ℕ → Option ℕ → Type 0
IsLeastFree max_slot used found =
    ((found ≡ some 0) × ((k : ℕ) → 0 < k → k ≤ max_slot → contains used k ≡ true))
    ⊎ ((s : ℕ) × (found ≡ some s)
        × (0 < s)
        × (s ≤ max_slot)
        × (contains used s ≡ false)
        × ((k : ℕ) → 0 < k → k < s → contains used k ≡ true))

abbrev UsedBelow : ℕ → List ℕ → Type 0
UsedBelow c used = (k : ℕ) → 0 < k → k < c → contains used k ≡ true

used-below-suc :
    (c : ℕ) (used : List ℕ) → UsedBelow c used → contains used c ≡ true → UsedBelow (suc c) used
used-below-suc c used below here k pos lt = elim (Bool-cases (k == c)) [
  | inl same ↦ ground (arith)
  | inr other ↦ below k pos (ground arith)
]

-- After the wrap of a uint32 the candidate 0 ends the loop: no row with a slot has slot 0.
first_free-zero :
    (fuel max_slot : ℕ) (used : List ℕ)
    → contains used 0 ≡ false
    → 0 < fuel
    → first_free fuel 0 max_slot used ≡ some 0
unfolding first_free
first_free-zero zero max_slot used h pos = absurd (omega arith)
first_free-zero (suc fuel) max_slot used h pos = ground arith

first_free_from :
    (fuel c max_slot : ℕ) (used : List ℕ)
    → contains used 0 ≡ false
    → max_slot < 2 ^ 32
    → 0 < c
    → c ≤ max_slot + 1
    → c < 2 ^ 32
    → c + fuel ≡ max_slot + 2
    → UsedBelow c used
    → IsLeastFree max_slot used (first_free fuel c max_slot used)
unfolding first_free
first_free_from zero c max_slot used h0 hm pos le lt e below = absurd (omega arith)
first_free_from (suc fuel) c max_slot used h0 hm pos le lt e below =
    elim (Bool-cases (leb c max_slot)) [
      | inr over ↦ rw over (inl (refl, λ k kp kle. below k kp (ground arith)))
      | inl fits ↦ rw fits (elim (Bool-cases (contains used c)) [
        | inr free ↦ rw free (inr (c, refl, pos, ground arith, free, below))
        | inl taken ↦ rw taken (elim (Bool-cases (c + 1 == 2 ^ 32)) [
          | inl wraps ↦
              let back : (c + 1) % 2 ^ 32 ≡ 0 = ground arith in
              rw back (
                rw (first_free-zero fuel max_slot used h0 (ground arith))
                  (inl (refl, λ k kp kle. used-below-suc c used below taken k kp (ground arith))))
          | inr stays ↦
              let next : (c + 1) % 2 ^ 32 ≡ suc c = ground arith in
              rw next (
                first_free_from fuel (suc c) max_slot used h0 hm (omega arith) (ground arith)
                  (ground arith) (omega arith) (used-below-suc c used below taken))
        ])
      ])
    ]

-- The list that the search skips holds no 0.
used_slots-zero : (rows : List SandboxRecord) → contains (used_slots rows) 0 ≡ false
unfolding used_slots select
used_slots-zero [] = refl
used_slots-zero (r ∷ rows) = ground (arith, used_slots-zero rows)

-- The loop ends within `max_slot + 1` rounds, for every uint32 `max_slot`, its wrap-around
-- included, and finds the least slot from 1 to `max_slot` that no row has, or 0 if there is none.
pub first_free_lem :
    (max_slot : ℕ) (rows : List SandboxRecord)
    → 0 < max_slot
    → max_slot < 2 ^ 32
    → IsLeastFree max_slot
        (used_slots rows)
        (first_free (suc max_slot) 1 max_slot (used_slots rows))
first_free_lem max_slot rows pos h =
    first_free_from (suc max_slot) 1 max_slot (used_slots rows) (used_slots-zero rows) h
      (omega arith) (omega arith) (omega arith) (omega arith) (λ k kp klt. absurd (omega arith))
