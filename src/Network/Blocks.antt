-- ===== src/Network/Blocks.antt =====
-- Arithmetic of aligned blocks of addresses: a network of 2 ^ k addresses whose base has no bit below
-- its mask neither wraps around 2 ^ 32 nor overlaps the next one.
use native.Mathlib.Nat.{
  pow-suc, suc-add, zero-add, div-add-mod, add-mul-div_left, div-eq_of_lt, lt_of_mul-lt-mul_left,
  mul-le-mul_left, mod-eq_of_lt, pow-le-pow_right,
}
use novita_box.Common.{
  ℕ, zero, suc, ◌+◌, ◌-◌, ◌*◌, ◌/◌, ◌%◌, ◌^◌, ◌≤◌, ◌<◌, ◌≡◌, sym, ap, ◌∙◌, arith,
}

two_pow_add : (a b : ℕ) → 2 ^ (a + b) ≡ 2 ^ a * 2 ^ b
two_pow_add zero b = rw zero-add (omega arith)
two_pow_add (suc a) b = rw (suc-add, pow-suc 2 (a + b), pow-suc 2 a, two_pow_add a b) (omega arith)

two_pow_pos : (k : ℕ) → 0 < 2 ^ k
two_pow_pos zero = omega arith
two_pow_pos (suc k) = grind (arith, pow-suc 2 k, two_pow_pos k)

pub block_splits : (ones : ℕ) → ones ≤ 32 → 2 ^ (32 - ones) * 2 ^ ones ≡ 2 ^ 32
block_splits ones h =
    let all : 32 - ones + ones ≡ 32 = omega arith in
    sym (two_pow_add (32 - ones) ones) ∙ ap (λ (k : ℕ). 2 ^ k) all

row_fits : (t m q i : ℕ) → t * q < t * m → i < t → t * q + i < t * m
row_fits t m q i lt h =
    let below : q < m = lt_of_mul-lt-mul_left t lt in
    let step : t * (q + 1) ≤ t * m = mul-le-mul_left t (omega arith) in omega arith

-- Every address of a block is below 2 ^ 32.
pub block_fits : (b t m i : ℕ) → t * m ≡ 2 ^ 32 → b < 2 ^ 32 → b % t ≡ 0 → i < t → b + i < 2 ^ 32
block_fits b t m i e lt al h =
    let row : t * (b / t) ≡ b = omega (arith, div-add-mod b t) in
    omega (arith, row_fits t m (b / t) i (omega arith) h)

-- The leading bits of an address of a block are those of its base.
pub block_div : (b t i : ℕ) → b % t ≡ 0 → i < t → (b + i) / t ≡ b / t
block_div b t i al h =
    let row : t * (b / t) ≡ b = omega (arith, div-add-mod b t) in
    ap (λ n. (n + i) / t) (sym row)
    ∙ ap (λ n. n / t) (omega arith)
    ∙ add-mul-div_left i (b / t) (omega arith)
    ∙ omega (arith, div-eq_of_lt h)

-- The number of addresses, as a uint32 shift computes it: for a mask of no bits it is 0.
pub shift_ones : (ones : ℕ) → 0 < ones → ones ≤ 32 → 2 ^ (32 - ones) % 2 ^ 32 ≡ 2 ^ (32 - ones)
shift_ones ones pos h =
    let half : 2 ^ (32 - ones) ≤ 2 ^ 31 =
      pow-le-pow_right {n = 2} (omega arith) {i = 32 - ones} {j = 31} (omega arith) in
    mod-eq_of_lt (omega arith)
