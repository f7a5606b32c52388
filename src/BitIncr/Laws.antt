-- ===== src/BitIncr/Laws.antt =====
-- The fields of c/bits/bitincr.c wrap around and never exceed their maximum.
use study_tips.Base.{ℕ, zero, suc, ◌+◌, ◌-◌, ◌/◌, ◌%◌, ◌^◌, ◌≡◌, refl, arith, false, ltb}
use study_tips.BitIncr.{
  State, get_seq, get_pt, seq_round, pt_round, bit_seq_max, bit_pt_max, seq_loop, pt_loop, initial,
  main,
}

-- In any number of rounds the first loop does not break; the 20-bit field goes up by 1 in each, modulo
-- 2 ^ 20, and the bits above it stay as they are.
pub seq_loop_lem :
    (rounds : ℕ) (s : State)
    → ((seq_loop rounds s).1 ≡ false)
      × (get_seq (seq_loop rounds s).0.guard ≡ (get_seq s.guard + rounds) % 2 ^ 20)
      × ((seq_loop rounds s).0.guard / 2 ^ 20 ≡ s.guard / 2 ^ 20)
unfolding seq_loop
seq_loop_lem zero s = (refl, omega arith, refl)
seq_loop_lem (suc rounds) s =
    let ih = seq_loop_lem rounds (seq_round s) in
    let no_break : ltb bit_seq_max (get_seq (seq_round s).guard) ≡ false = ground arith in
    rw no_break (ih.0, omega (arith, ih.1), omega (arith, ih.2))

-- In any number of rounds the second loop does not break; the 12-bit field goes up by 1 in each, modulo
-- 2 ^ 12, and the bits above it stay as they are.
pub pt_loop_lem :
    (rounds : ℕ) (s : State)
    → ((pt_loop rounds s).1 ≡ false)
      × (get_pt (pt_loop rounds s).0.guard ≡ (get_pt s.guard + rounds) % 2 ^ 12)
      × ((pt_loop rounds s).0.guard / 2 ^ 12 ≡ s.guard / 2 ^ 12)
unfolding pt_loop
pt_loop_lem zero s = (refl, omega arith, refl)
pt_loop_lem (suc rounds) s =
    let ih = pt_loop_lem rounds (pt_round s) in
    let no_break : ltb bit_pt_max (get_pt (pt_round s).guard) ≡ false = ground arith in
    rw no_break (ih.0, omega (arith, ih.1), omega (arith, ih.2))

-- Neither loop of `main` breaks; the union holds 2 behind the first, and 1 behind the second.
pub bits_main :
    (main.0.1 ≡ false) × (main.0.0.guard ≡ 2) × (main.1.1 ≡ false) × (main.1.0.guard ≡ 1)
unfolding main initial
bits_main =
    let first = seq_loop_lem (2 ^ 32 - 1) initial in
    let second = pt_loop_lem (2 ^ 16 - 1) (seq_loop (2 ^ 32 - 1) initial).0 in
    (first.0, omega (arith, first), second.0, omega (arith, first, second))
