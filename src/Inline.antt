-- ===== src/Inline.antt =====
-- c/inline/inline.c and c/inline/main.c: an inline function that is called from its own file and from
-- another. `none` is an int that overflows.
pub mod Laws
mod Tests
use study_tips.Base.{ℕ, ◌+◌, ◌^◌, Bool, Option, none, some, ltb, if◌then◌else◌}
use study_tips.Base.Int.{ℤ, pos, negsuc, sub_ℕ}
use study_tips.Header.Memory.{◌>>=◌}

infixl 60 ◌+ℤ◌
abbrev pub ◌+ℤ◌ : ℤ → ℤ → ℤ
pos a +ℤ pos b = pos (a + b)
pos a +ℤ negsuc b = sub_ℕ a (b + 1)
negsuc a +ℤ pos b = sub_ℕ b (a + 1)
negsuc a +ℤ negsuc b = negsuc (a + b + 1)

abbrev pub is_int : ℤ → Bool
is_int (pos n) = ltb n (2 ^ 31)
is_int (negsuc n) = ltb n (2 ^ 31)

abbrev pub as_int : ℤ → Option ℤ
as_int z = if is_int z then some z else none

pub foo : ℤ → Option ℤ
foo t = as_int (t +ℤ pos 1)

pub usefoo : ℤ → Option ℤ
unfolding foo
usefoo c = do t ← foo c; as_int (c +ℤ t)

-- The number that `main` of c/inline/main.c prints.
pub main : Option ℤ
unfolding foo
main = foo (pos 1)
