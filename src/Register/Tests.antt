-- ===== src/Register/Tests.antt =====
-- `f` of c/register/main.c at concrete bytes.
use study_tips.Base.{ℕ, ◌*◌, ◌^◌, ◌≡◌, arith, List, [], ◌∷◌}
use study_tips.Register.{f}
use study_tips.Register.Laws.{f_lem}

abbrev buffer : List ℕ
buffer = 0x12 ∷ 0x34 ∷ 0xff ∷ []

f_lem_example : f buffer ≡ 0xd9 * 2 ^ 24
f_lem_example = f_lem buffer (omega arith)
