-- ===== src/Aligned/Tests.antt =====
-- c/aligned/main.c with the packed struct and its count of rounds.
use study_tips.Base.{inl, arith, replicate}
use study_tips.Aligned.{layout_b, run, count}
use study_tips.Aligned.Laws.{IsLayout, Leaves, counted, run-Leaves}

layout_b-IsLayout : IsLayout layout_b
layout_b-IsLayout = record {
  u8_inside = omega arith;
  u64_inside = omega arith;
  apart = inl (omega arith);
}

run-Leaves_example : Leaves layout_b (replicate 9 0) (counted count) (run layout_b count)
run-Leaves_example = run-Leaves layout_b layout_b-IsLayout count (omega arith)
