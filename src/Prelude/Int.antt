-- ===== src/Prelude/Int.antt =====
-- Signed integers over the native numbers, for differences of instants.
use Prim.Native.Nat.{ℕ, suc, ◌+◌, ◌-◌, ◌%◌, ◌^◌, ◌<◌, ◌≤◌}
use mathlib.Core.Path.{◌≡◌}
use mathlib.Core.Bool.{Bool, not}
use native.Mathlib.Omega.{arith}
use diyddns.Prelude.Tests.{leb, ltb, if◌then◌else◌}

-- `negsuc n` is -(n + 1).
pub data ℤ : Type 0 where
  pos : ℕ → ℤ
  negsuc : ℕ → ℤ

abbrev pub pos_part : ℤ → ℕ
pos_part (pos n) = n
pos_part (negsuc n) = 0

abbrev pub neg_part : ℤ → ℕ
neg_part (pos n) = 0
neg_part (negsuc n) = suc n

-- a - b, as an integer.
abbrev pub sub_ℕ : ℕ → ℕ → ℤ
sub_ℕ a b = if leb b a then pos (a - b) else negsuc (b - a - 1)

abbrev pub leb_ℤ : ℤ → ℤ → Bool
leb_ℤ a b = leb (pos_part a + neg_part b) (pos_part b + neg_part a)

pub leb_ℤ-sub_ℕ : (n a b : ℕ) → leb_ℤ (pos n) (sub_ℕ a b) ≡ leb (n + b) a
leb_ℤ-sub_ℕ n a b = ground arith

abbrev pub ltb_ℤ : ℤ → ℤ → Bool
ltb_ℤ a b = not (leb_ℤ b a)

abbrev pub neg_ℕ : ℕ → ℤ
neg_ℕ n = sub_ℕ 0 n

abbrev pub sub_ℤ : ℤ → ℤ → ℤ
sub_ℤ a b = sub_ℕ (pos_part a + neg_part b) (pos_part b + neg_part a)

abbrev pub add_ℤ : ℤ → ℤ → ℤ
add_ℤ a b = sub_ℕ (pos_part a + pos_part b) (neg_part a + neg_part b)

-- The int64 that an arithmetic operation of Go returns, by two's complement.
abbrev pub wrap64 : ℤ → ℤ
wrap64 (pos n) = let m = n % 2 ^ 64 in if ltb m (2 ^ 63) then pos m else negsuc (2 ^ 64 - 1 - m)
wrap64 (negsuc n) = let m = n % 2 ^ 64 in if ltb m (2 ^ 63) then negsuc m else pos (2 ^ 64 - 1 - m)

abbrev pub Int64 : ℤ → Type 0
Int64 a = (pos_part a < 2 ^ 63) × (neg_part a ≤ 2 ^ 63)
