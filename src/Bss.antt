-- ===== src/Bss.antt =====
-- c/bss/main.c: big global arrays that are touched, and arrays on the stack of a size that is entered.
pub mod Laws
mod Tests
use study_tips.Base.{
  ℕ, zero, suc, ◌+◌, ◌-◌, ◌*◌, ◌%◌, ◌^◌, Option, none, some, List, [], ◌∷◌, length, get_or, drop,
  replicate, if◌then◌else◌, ltb, ◌==◌,
}
use study_tips.Base.Int.{ℤ, pos, negsuc}
use study_tips.Base.Word.{u32}
use study_tips.Header.Memory.{Mem, load, store, ◌>>=◌}
use study_tips.Os.{Run, exit, fault, ◌▸◌}

-- `g_abBufferAtDataSegment` and `g_abBufferAtBssSegment` when the program starts.
abbrev pub data_segment : Mem
data_segment = replicate (2 * 1024 * 1024) 0xff

abbrev pub bss_segment : Mem
bss_segment = replicate (4 * 1024 * 1024) 0

-- `for (unsigned int i = 0; i < sizeof(...); ++i)`, where each byte is set to itself; `none` is an
-- access outside the array or fuel that has run out.
pub touch : (fuel i : ℕ) → Mem → Option Mem
touch zero i buffer = none
touch (suc fuel) i buffer =
    let rest =
      load buffer i >>= λ v. store buffer i v >>= λ buffer'. touch fuel (u32 (i + 1)) buffer' in
    if ltb i (length buffer) then rest else some buffer

-- The assignment of an int to an unsigned int.
abbrev pub to_unsigned : ℤ → ℕ
to_unsigned (pos n) = u32 n
to_unsigned (negsuc n) = 2 ^ 32 - 1 - u32 n

-- The bytes that are cleared.
pub data Call : Type 0 where
  memset : ℕ → Call

-- `size * (1024 * 1024)`, an unsigned int.
abbrev pub buffer_size : ℕ → ℕ
buffer_size size = u32 (size * (1024 * 1024))

-- `room` is how many bytes the stack has left for `tmpBuffer`; lines are what `fgets` reads, up to its
-- NULL.
module _ (atoi : List ℕ → ℤ) (room : ℕ) where
  -- `while (fgets(...))`; a write to an array that the stack has no room for is a fault.
  pub rounds : List (List ℕ) → Run Call
  rounds [] = exit (pos 0)
  rounds (line ∷ lines) =
      let rest = rounds lines in
      let size = buffer_size (to_unsigned (atoi line)) in
      if get_or line 0 0 == b'q'
      then exit (pos 0)
      else (if ltb room size then fault else memset size ▸ rest)

  -- `main` with the two arrays; two lines are read before the loop.
  pub main : (in_data in_bss : Mem) → List (List ℕ) → Option (Mem × Mem × Run Call)
  main in_data in_bss lines = do
    data' ← touch (length in_data + 1) 0 in_data
    bss' ← touch (length in_bss + 1) 0 in_bss
    some (data', bss', rounds (drop 2 lines))
