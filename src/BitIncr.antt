-- ===== src/BitIncr.antt =====
-- c/bits/bitincr.c: a union of a 20-bit field, a 12-bit field and a uint32_t, whose fields are counted up
-- past their maximum. The fields begin at the lowest bit, as gcc lays them out on x86; what is printed
-- is left out, but for the flag that asks for it.
pub mod Laws
mod Tests
use study_tips.Base.{
  ℕ, zero, suc, ◌+◌, ◌-◌, ◌*◌, ◌/◌, ◌%◌, ◌^◌, Bool, true, false, leb, ltb, if◌then◌else◌,
}

-- `a.guard` and `bNeetPrintNext`.
pub record State : Type 0 where
  pub guard : ℕ
  pub need_print_next : Bool

abbrev pub get_seq : ℕ → ℕ
get_seq guard = guard % 2 ^ 20

abbrev pub get_pt : ℕ → ℕ
get_pt guard = guard % 2 ^ 12

-- A store in a field keeps the bits above it.
abbrev pub put_seq : ℕ → ℕ → ℕ
put_seq guard v = guard / 2 ^ 20 * 2 ^ 20 + v % 2 ^ 20

abbrev pub put_pt : ℕ → ℕ → ℕ
put_pt guard v = guard / 2 ^ 12 * 2 ^ 12 + v % 2 ^ 12

abbrev pub bit_seq_max : ℕ
bit_seq_max = 2 ^ 20 - 1

abbrev pub bit_pt_max : ℕ
bit_pt_max = 2 ^ 12 - 1

-- The flag behind a round, in which `value` has been counted up.
abbrev pub next_flag : ℕ → ℕ → Bool
next_flag value max = if leb max value then true else false

abbrev pub seq_round : State → State
seq_round s =
    let guard = put_seq s.guard (get_seq s.guard + 1) in
    record { guard = guard; need_print_next = next_flag (get_seq guard) bit_seq_max }

-- The first loop, with the rounds that are left; the second component is whether `break` is taken.
pub seq_loop : ℕ → State → State × Bool
seq_loop zero s = (s, false)
seq_loop (suc rounds) s =
    let rest = seq_loop rounds (seq_round s) in
    if ltb bit_seq_max (get_seq (seq_round s).guard) then (seq_round s, true) else rest

abbrev pub pt_round : State → State
pt_round s =
    let guard = put_pt s.guard (get_pt s.guard + 1) in
    record { guard = guard; need_print_next = next_flag (get_pt guard) bit_pt_max }

-- The second loop.
pub pt_loop : ℕ → State → State × Bool
pt_loop zero s = (s, false)
pt_loop (suc rounds) s =
    let rest = pt_loop rounds (pt_round s) in
    if ltb bit_pt_max (get_pt (pt_round s).guard) then (pt_round s, true) else rest

-- The union before the first loop: 0, then the two stores.
pub initial : State
initial = record { guard = put_pt (put_seq 0 (bit_seq_max + 2)) 3; need_print_next = false }

abbrev pub uint_max : ℕ
uint_max = 2 ^ 32 - 1

abbrev pub ushrt_max : ℕ
ushrt_max = 2 ^ 16 - 1

-- The state behind the first loop and its `break`, and the same for the second.
pub main : (State × Bool) × (State × Bool)
main =
    let first = seq_loop uint_max initial in
    let second = pt_loop ushrt_max first.0 in (first, second)
