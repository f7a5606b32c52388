-- ===== src/Warning.antt =====
-- c/warning/main.c: `memcmp` with a bracket at the wrong place, and at the right one.
pub mod Laws
mod Tests
use study_tips.Base.{ℕ, Bool, not, List, [], ◌∷◌, ◌++◌, length, replicate, if◌then◌else◌, ◌==◌}
use study_tips.Base.Int.{ℤ, pos, eqb}
use study_tips.Base.Le.{to_le}
use study_tips.Header.Memory.{Mem}

pub data Line : Type 0 where
  asks memcmp_int memcmp_array memcmp_valid exits : Line

-- `sizeof(x) != 0`, as an int.
abbrev pub has_size : Mem → ℕ
has_size x = if length x == 0 then 0 else 1

-- `memcmp` of the C library is a parameter: two objects and how many bytes.
module _ (memcmp : Mem → Mem → ℕ → ℤ) where
  -- `memcmp(&x, &y, (sizeof(x) != 0))`, as a condition.
  pub misplaced : Mem → Mem → Bool
  misplaced x y = not (eqb (memcmp x y (has_size x)) (pos 0))

  -- `memcmp(&x, &y, sizeof(x)) != 0`
  pub valid : Mem → Mem → Bool
  valid x y = not (eqb (memcmp x y (length x)) (pos 0))

  abbrev pub printed_if : Bool → Line → List Line
  printed_if test line = if test then line ∷ [] else []

  -- The lines of `main`, from the objects that it compares.
  pub lines : (a b c d e f : Mem) → List Line
  lines a b c d e f =
      asks ∷ printed_if (misplaced a b) memcmp_int
      ++ (printed_if (misplaced c d) memcmp_array
          ++ (printed_if (valid e f) memcmp_valid ++ exits ∷ []))

  -- An int is 4 bytes, an array of 16 ints is 64.
  pub main : List Line
  main =
      lines (to_le 4 1) (to_le 4 2) (replicate 64 0) (replicate 64 0) (replicate 64 0)
        (replicate 64 0)
