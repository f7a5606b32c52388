-- ===== src/ThreeOpr.antt =====
-- c/threeopr/main.c: an index that is kept inside an array by a condition, or by a mask.
pub mod Laws
use study_tips.Base.{ℕ, ◌-◌, ◌^◌, Option, some, bit_and, if◌then◌else◌, ltb}
use study_tips.Base.Int.{ℤ, pos, negsuc}
use study_tips.Base.Word.{u64}
use study_tips.Header.Memory.{Mem, load}

-- `sizeof(szArr)`
abbrev pub arr_size : ℕ
arr_size = 256

-- int to size_t
abbrev pub to_size : ℤ → ℕ
to_size (pos n) = u64 n
to_size (negsuc n) = 2 ^ 64 - 1 - u64 n

-- `argc < sizeof(szArr) ? szArr[argc] : '\0'`
pub by_condition : Mem → ℤ → Option ℕ
by_condition sz_arr argc =
    if ltb (to_size argc) arr_size then load sz_arr (to_size argc) else some 0

-- `szArr[argc & (sizeof(szArr) - 1)]`
pub by_mask : Mem → ℤ → Option ℕ
by_mask sz_arr argc = load sz_arr (bit_and (to_size argc) (arr_size - 1))
