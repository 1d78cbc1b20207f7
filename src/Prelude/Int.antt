-- ===== src/Prelude/Int.antt =====
-- `i64`: the integers, with the increment of a two's complement word of 64 bits written out.
use Prim.Native.Nat.{ℕ, zero, suc, ◌+◌, ◌-◌, ◌^◌, ◌≤◌, ◌<◌}
use mathlib.Core.Path.{◌≡◌}
use mathlib.Core.Bool.{Bool, true, false}
use native.Mathlib.Omega.{arith}
use uprava.Prelude.Tests.{leb, ltb, ◌==◌, if◌then◌else◌}

-- `negsuc n` is -(n + 1).
pub data ℤ : Type 0 where
  pos : ℕ → ℤ
  negsuc : ℕ → ℤ

abbrev pub pos_part : ℤ → ℕ
pos_part (pos n) = n
pos_part (negsuc n) = 0

abbrev pub neg_part : ℤ → ℕ
neg_part (pos n) = 0
neg_part (negsuc n) = suc n

infix 50 ◌≤ℤ◌ ◌<ℤ◌
abbrev pub ◌≤ℤ◌ : ℤ → ℤ → Type 0
a ≤ℤ b = pos_part a + neg_part b ≤ pos_part b + neg_part a

abbrev pub ◌<ℤ◌ : ℤ → ℤ → Type 0
a <ℤ b = pos_part a + neg_part b < pos_part b + neg_part a

abbrev pub leℤ : ℤ → ℤ → Bool
leℤ a b = leb (pos_part a + neg_part b) (pos_part b + neg_part a)

abbrev pub eqℤ : ℤ → ℤ → Bool
eqℤ (pos a) (pos b) = a == b
eqℤ (negsuc a) (negsuc b) = a == b
eqℤ _ _ = false

abbrev pub maxℤ : ℤ → ℤ → ℤ
maxℤ a b = if leℤ a b then b else a

abbrev pub i64_max : ℕ
i64_max = 2 ^ 63 - 1

-- `x + 1` on `i64`: past the maximum it wraps round to the minimum.
abbrev pub i64_succ : ℤ → ℤ
i64_succ (pos n) = if ltb n i64_max then pos (n + 1) else negsuc i64_max
i64_succ (negsuc zero) = pos 0
i64_succ (negsuc (suc n)) = negsuc n

pub maxℤ-ge_left : (a b : ℤ) → a ≤ℤ maxℤ a b
maxℤ-ge_left a b = ground arith

pub maxℤ-ge_right : (a b : ℤ) → b ≤ℤ maxℤ a b
maxℤ-ge_right a b = ground arith

pub eqℤ-refl : (a : ℤ) → eqℤ a a ≡ true
eqℤ-refl (pos a) = ground arith
eqℤ-refl (negsuc a) = ground arith
