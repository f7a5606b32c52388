-- ===== src/Inline/Tests.antt =====
-- What c/inline/main.c prints.
use study_tips.Base.{◌≡◌, refl, some}
use study_tips.Base.Int.{pos}
use study_tips.Inline.{foo, main}

prints : main ≡ some (pos 2)
unfolding main foo
prints = refl
