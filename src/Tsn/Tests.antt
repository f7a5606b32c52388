-- ===== src/Tsn/Tests.antt =====
-- Runs of c/tsn/main.c, and the laws at concrete numbers.
use study_tips.Base.{◌≡◌, refl, true, ◌⊎◌, ◌↔◌, ◌^◌, arith, [], ◌∷◌}
use study_tips.Tsn.{main, truth, tsn_lt}
use study_tips.Tsn.Rfc1982.{SerialLt, Opposite, tsn_lt-SerialLt}

all_pass :
    main
    ≡ true ∷ true ∷ true ∷ true ∷ true ∷ true ∷ true ∷ true ∷ true ∷ true ∷ true ∷ true ∷ true
      ∷ true ∷ []
unfolding main
all_pass = refl

tsn_lt-SerialLt_example :
    (truth (tsn_lt 0xFFFFFFFF 1) ≡ true)
    ↔ (SerialLt (2 ^ 31) 0xFFFFFFFF 1 ⊎ Opposite (2 ^ 31) 0xFFFFFFFF 1)
tsn_lt-SerialLt_example = tsn_lt-SerialLt 0xFFFFFFFF 1 (omega arith) (omega arith)
