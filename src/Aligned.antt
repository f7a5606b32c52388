-- ===== src/Aligned.antt =====
-- c/aligned/main.c: the same loop on a struct with padding and on a packed one, and the time that it takes.
pub mod Laws
mod Tests
use study_tips.Base.{ℕ, zero, suc, ◌+◌, ◌-◌, ◌*◌, ◌^◌, Option, none, some, replicate}
use study_tips.Base.Word.{u64}
use study_tips.Header.Memory.{Mem, load, store, ◌>>=◌}
use study_tips.Header.Block.Fields.{load_le, store_le}

-- Where a struct has its two fields, and how many bytes it has.
pub record Layout : Type 0 where
  pub size : ℕ
  pub u8_at : ℕ
  pub u64_at : ℕ

-- A, whose second field is aligned to 8 bytes, and B, in the reach of `pack(push, 1)`.
abbrev pub layout_a : Layout
layout_a = record { size = 16; u8_at = 0; u64_at = 8 }

abbrev pub layout_b : Layout
layout_b = record { size = 9; u8_at = 0; u64_at = 1 }

-- The body of both loops: `x.u64 += x.u8; ++x.u8;`
pub round : Layout → Mem → Option Mem
round l m = do
  sum ← load_le 8 m l.u64_at
  step ← load m l.u8_at
  m1 ← store_le 8 m l.u64_at (u64 (sum + step))
  again ← load m1 l.u8_at
  store m1 l.u8_at (again + 1)

-- `while(i--)`
pub rounds : Layout → ℕ → Mem → Option Mem
rounds l zero m = some m
rounds l (suc i) m = round l m >>= rounds l i

-- A loop on a struct that is initialised with `{}`.
pub run : Layout → ℕ → Option Mem
run l i = rounds l i (replicate l.size 0)

-- `count`
abbrev pub count : ℕ
count = 100000000

-- The two objects behind the loops of `main`.
pub main : Option Mem × Option Mem
main = (run layout_a count, run layout_b count)

-- A `struct timeval`, of a time behind the epoch.
pub record Timeval : Type 0 where
  pub sec : ℕ
  pub usec : ℕ

-- `diff` of `getDiff`, an unsigned long, from differences that may be negative. What `getDiff` returns
-- is this number over 1000000, as a double.
pub diff : Timeval → Timeval → ℕ
diff start end =
    u64 (u64 (end.sec + 2 ^ 64 - start.sec) * 1000000 + u64 (end.usec + 2 ^ 64 - start.usec))
