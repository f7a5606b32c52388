-- ===== src/BitIncr/Tests.antt =====
-- The loops of c/bits/bitincr.c at concrete states.
use study_tips.Base.{◌≡◌, ◌/◌, ◌^◌, ◌+◌, ◌-◌, false, true}
use study_tips.BitIncr.{State, get_seq, seq_loop}
use study_tips.BitIncr.Laws.{seq_loop_lem}

abbrev full : State
full = record { guard = 2 ^ 22 + 2 ^ 20 - 1; need_print_next = true }

seq_loop_lem_example :
    ((seq_loop 3 full).1 ≡ false)
    × (get_seq (seq_loop 3 full).0.guard ≡ 2)
    × ((seq_loop 3 full).0.guard / 2 ^ 20 ≡ 4)
seq_loop_lem_example = seq_loop_lem 3 full
