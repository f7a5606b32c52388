-- ===== src/Malloc/Tests.antt =====
-- c/malloc/main.c with a small block.
use study_tips.Base.{◌≡◌, refl, arith, Option, some, [], ◌∷◌}
use study_tips.Malloc.{State, run, freed}
use study_tips.Malloc.Laws.{IsTouched, run-IsTouched}

run-IsTouched_example :
    (state : Option State) × (run 5 2 (some (9 ∷ 9 ∷ 9 ∷ 9 ∷ 9 ∷ [])) ≡ freed state)
    × IsTouched 5 2 state
run-IsTouched_example = run-IsTouched 5 2 (9 ∷ 9 ∷ 9 ∷ 9 ∷ 9 ∷ []) (omega arith) refl
