-- ===== src/Malloc.antt =====
-- c/malloc/main.c: a big block is allocated, written to byte by byte and freed.
pub mod Laws
mod Tests
use study_tips.Base.{
  ℕ, zero, suc, ◌+◌, ◌*◌, ◌^◌, Bool, Option, none, some, List, [], ◌∷◌, if◌then◌else◌, ltb,
}
use study_tips.Base.Word.{u8}
use study_tips.Header.Memory.{Mem, store, ◌>>=◌}

-- `nBigSize`, and the most bytes that one round writes.
abbrev pub big_size : ℕ
big_size = 1024 * 1024 * 1024

abbrev pub chunk_size : ℕ
chunk_size = 100 * 1024 * 1024

-- The cursor, as an offset into the block, and the block.
pub record State : Type 0 where
  pub cursor : ℕ
  pub mem : Mem

-- `for (i = 0; i < chunk && cursor < end; ++i, ++cursor)`, with the rounds that are left below `chunk`.
-- `none` is a write outside the block.
pub write_chunk : (size rounds i : ℕ) → State → Option State
write_chunk size zero i s = some s
write_chunk size (suc rounds) i s =
    let rest = store s.mem s.cursor i >>= λ m.
    write_chunk size rounds (i + 1) (record { cursor = s.cursor + 1; mem = m }) in
    if ltb s.cursor size then rest else some s

-- `do { ... } while (cursor < end)`, with the seconds of each `sleep`; `none` is also fuel that has run
-- out.
pub touch : (fuel size chunk : ℕ) → State → Option State
touch zero size chunk s = none
touch (suc fuel) size chunk s = write_chunk size chunk 0 s >>= λ s'.
    let rest = touch fuel size chunk s' in if ltb s'.cursor size then rest else some s'

-- Fuel for any block: each round writes a byte at least.
abbrev pub enough : ℕ → ℕ
enough size = size + 1

-- How `main` ends: with -1 when `malloc` returns NULL, or with 0 and the block that it frees.
pub data End : Type 0 where
  no_memory : End
  freed : Option State → End

-- `main`, for a block of any size and rounds of any length.
pub run : (size chunk : ℕ) → Option Mem → End
run size chunk none = no_memory
run size chunk (some block) =
    freed (touch (enough size) size chunk (record { cursor = 0; mem = block }))

pub main : Option Mem → End
main block = run big_size chunk_size block
