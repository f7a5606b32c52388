-- ===== src/Bss/Tests.antt =====
-- c/bss/main.c with short arrays and lines of one number each.
use study_tips.Base.{ℕ, ◌≡◌, refl, arith, List, [], ◌∷◌, get_or, replicate}
use study_tips.Base.Int.{ℤ, pos}
use study_tips.Header.Memory.{all_bytes-IsBytes}
use study_tips.Bss.{buffer_size}
use study_tips.Bss.Laws.{Touched, main-Touched}

-- A line of one byte is that number of megabytes.
abbrev one_byte : List ℕ → ℤ
one_byte line = pos (get_or line 0 0)

abbrev entered : List (List ℕ)
entered = [] ∷ [] ∷ (3 ∷ []) ∷ (9 ∷ []) ∷ (b'q' ∷ []) ∷ (1 ∷ []) ∷ []

main-Touched_example : Touched one_byte 8000000 (replicate 3 255) (replicate 2 0) entered
main-Touched_example =
    main-Touched one_byte 8000000 (replicate 3 255) (replicate 2 0)
      (all_bytes-IsBytes (replicate 3 255) refl) (omega arith)
      (all_bytes-IsBytes (replicate 2 0) refl) (omega arith) entered

-- 4096 MB are an array of no bytes.
wraps : buffer_size 4096 ≡ 0
wraps = refl
