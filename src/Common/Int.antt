-- ===== src/Common/Int.antt =====
-- Signed 64-bit values (Unix seconds) and int32 sizes, as integers.
use Prim.Native.Nat.{ℕ, ◌≤◌}
use mathlib.Core.Path.{◌≡◌}
use mathlib.Core.Bool.{Bool, true, false}
use native.Mathlib.Omega.{arith}
use novita_box.Common.Tests.{◌==◌, ltb}

-- `negsuc n` is -(n + 1).
pub data ℤ : Type 0 where
  pos : ℕ → ℤ
  negsuc : ℕ → ℤ

-- x <= 0
abbrev pub is_nonpos : ℤ → Bool
is_nonpos (pos n) = n == 0
is_nonpos (negsuc n) = true

abbrev pub eq_ℤ : ℤ → ℤ → Bool
eq_ℤ (pos a) (pos b) = a == b
eq_ℤ (negsuc a) (negsuc b) = a == b
eq_ℤ _ _ = false

abbrev pub ltb_ℤ : ℤ → ℤ → Bool
ltb_ℤ (pos a) (pos b) = ltb a b
ltb_ℤ (pos a) (negsuc b) = false
ltb_ℤ (negsuc a) (pos b) = true
ltb_ℤ (negsuc a) (negsuc b) = ltb b a

-- x <= y, as a statement
abbrev pub ◌≤ℤ◌ : ℤ → ℤ → Type 0
◌≤ℤ◌ (pos a) (pos b) = a ≤ b
◌≤ℤ◌ (pos a) (negsuc b) = ⊥
◌≤ℤ◌ (negsuc a) (pos b) = Unit
◌≤ℤ◌ (negsuc a) (negsuc b) = b ≤ a

infix 50 ◌≤ℤ◌
pub ≤ℤ_refl : (a : ℤ) → a ≤ℤ a
≤ℤ_refl (pos a) = omega arith
≤ℤ_refl (negsuc a) = omega arith

pub ≤ℤ_trans : (a b c : ℤ) → a ≤ℤ b → b ≤ℤ c → a ≤ℤ c
≤ℤ_trans a b c h k = ground arith

pub ltb_ℤ-false : (a b : ℤ) → ltb_ℤ a b ≡ false → b ≤ℤ a
ltb_ℤ-false a b h = ground arith

pub ltb_ℤ-true : (a b : ℤ) → ltb_ℤ a b ≡ true → a ≤ℤ b
ltb_ℤ-true a b h = ground arith

pub eq_ℤ-true : (a b : ℤ) → eq_ℤ a b ≡ true → b ≤ℤ a
eq_ℤ-true a b h = ground arith
