-- ===== src/Sctp/Laws.antt =====
-- When c/sctp/main.c leaves its socket open.
use study_tips.Base.{◌≡◌, refl, arith, [], ◌∷◌, if◌then◌else◌}
use study_tips.Base.Int.{ℤ, pos, negsuc, eqb, eqb_refl}
use study_tips.Os.{left_open}
use study_tips.Os.Sockets.{call_descriptors}
use study_tips.Sctp.{main}

-- `main` leaves a descriptor open just if it is 0, which it takes for a failure.
pub main_leaves : (fd : ℤ) → left_open [] (main fd) ≡ (if eqb fd (pos 0) then pos 0 ∷ [] else [])
unfolding main
main_leaves (negsuc n) = refl
main_leaves (pos n) = ground (arith, eqb_refl (pos n))
