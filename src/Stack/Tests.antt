-- ===== src/Stack/Tests.antt =====
-- c/stack/main.c with four lines, where the third thread is refused.
use study_tips.Base.{ℕ, ◌==◌, [], ◌∷◌, ◌≡◌, refl, if◌then◌else◌}
use study_tips.Base.Int.{ℤ, pos}
use study_tips.Stack.{loop, main}

-- EAGAIN for the third thread.
abbrev two_threads : ℕ → ℤ
two_threads calls = if calls == 2 then pos 11 else pos 0

main_shows : (main two_threads (97 ∷ 98 ∷ 99 ∷ 100 ∷ [])).shown ≡ (97, 1) ∷ (98, 2) ∷ (99, 3) ∷ []
unfolding main loop
main_shows = refl
