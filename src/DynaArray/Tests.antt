-- ===== src/DynaArray/Tests.antt =====
-- c/dyna_stack_array/dynaArray.c with the length that `main` gives.
use study_tips.Base.{◌≤◌, ◌<◌, ◌≡◌, ◌⊎◌, arith, none, some, List, length, replicate}
use study_tips.Base.Int.{ℤ, pos}
use study_tips.DynaArray.{f}
use study_tips.DynaArray.Laws.{zeros, IsFilled, f-IsFilled}

abbrev eight : List ℤ
eight = replicate 8 (pos 0)

f-IsFilled_example :
    ((length eight < 2) × (f eight ≡ none))
    ⊎ ((2 ≤ length eight) × ((out : List ℤ) × (f eight ≡ some (out, zeros)) × IsFilled eight out))
f-IsFilled_example = f-IsFilled eight (omega arith)
