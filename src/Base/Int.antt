-- ===== src/Base/Int.antt =====
-- C's signed integers, over the native numbers; `negsuc n` is -(n + 1).
use Prim.Native.Nat.{ℕ, ◌+◌, ◌-◌, ◌^◌, ◌≤◌, ◌<◌}
use mathlib.Core.Path.{◌≡◌}
use mathlib.Core.Bool.{Bool, true, false}
use native.Mathlib.Omega.{arith}
use study_tips.Base.Tests.{leb, ltb, ◌==◌, if◌then◌else◌}
use study_tips.Base.Word.{u32}

pub data ℤ : Type 0 where
  pos : ℕ → ℤ
  negsuc : ℕ → ℤ

-- The -1 that system calls return on failure.
abbrev pub minus_one : ℤ
minus_one = negsuc 0

abbrev pub is_neg : ℤ → Bool
is_neg (pos n) = false
is_neg (negsuc n) = true

-- An unsigned number as an int of 32 bits.
abbrev pub to_int : ℕ → ℤ
to_int n = if ltb (u32 n) (2 ^ 31) then pos (u32 n) else negsuc (2 ^ 32 - 1 - u32 n)

-- a - b, as an integer.
abbrev pub sub_ℕ : ℕ → ℕ → ℤ
sub_ℕ a b = if leb b a then pos (a - b) else negsuc (b - a - 1)

abbrev pub eqb : ℤ → ℤ → Bool
eqb (pos a) (pos b) = a == b
eqb (negsuc a) (negsuc b) = a == b
eqb (pos a) (negsuc b) = false
eqb (negsuc a) (pos b) = false

-- a - b in size_t, then as an int of 32 bits.
abbrev pub int_sub : ℕ → ℕ → ℤ
int_sub a b = to_int (a + 2 ^ 64 - b)

-- Numbers that are near enough have the difference that they have as integers.
pub int_sub_near : (a b : ℕ) → b ≤ 2 ^ 31 → a < b + 2 ^ 31 → int_sub a b ≡ sub_ℕ a b
int_sub_near a b hb h = ground arith

-- A uint32_t that is further away has a negative one.
pub int_sub_far : (a b : ℕ) → a < 2 ^ 32 → b + 2 ^ 31 ≤ a → is_neg (int_sub a b) ≡ true
int_sub_far a b ha h = ground arith

pub eqb_refl : (a : ℤ) → eqb a a ≡ true
eqb_refl (pos n) = ground arith
eqb_refl (negsuc n) = ground arith
