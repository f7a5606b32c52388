-- ===== src/DynaArray.antt =====
-- `f` of c/dyna_stack_array/dynaArray.c: three stores into an array whose length is the argument.
pub mod Laws
mod Tests
use study_tips.Base.{ℕ, ◌+◌, ◌-◌, ◌^◌, Option, none, some, List, length, set, if◌then◌else◌, ltb}
use study_tips.Base.Int.{ℤ, pos}
use study_tips.Base.Word.{u32}
use study_tips.Header.Memory.{◌>>=◌}

-- TRet
pub record Ret : Type 0 where
  pub j : ℤ
  pub k : ℤ
  pub l : ℤ
  pub h : ℤ

-- `a[i] = v`; `none` is a store outside the array.
abbrev pub put : List ℤ → ℕ → ℤ → Option (List ℤ)
put a i v = if ltb i (length a) then some (set a i v) else none

-- `f`, from what the array `a` holds before it is written, and with what it holds at the end.
pub f : List ℤ → Option (List ℤ × Ret)
f a = do
  let size = length a
  a1 ← put a 0 (pos 1)
  a2 ← put a1 1 (pos 10)
  a3 ← put a2 (u32 (size + (2 ^ 32 - 1))) (pos 100)
  some (a3, record { j = pos 0; k = pos 0; l = pos 0; h = pos 0 })
