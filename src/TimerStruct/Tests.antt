-- ===== src/TimerStruct/Tests.antt =====
-- c/struct/main.c with a buffer that holds something already.
use study_tips.Base.{replicate, arith}
use study_tips.TimerStruct.{main}
use study_tips.TimerStruct.Laws.{Encoded, main-Encoded}

main-Encoded_example : Encoded (replicate 40 7) (main (replicate 40 7))
main-Encoded_example = main-Encoded (replicate 40 7) (omega arith)
