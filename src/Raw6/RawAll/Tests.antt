-- ===== src/Raw6/RawAll/Tests.antt =====
-- c/raw6/rawall.c at concrete addresses.
use study_tips.Base.{ℕ, refl, arith, some, none, List, [], ◌∷◌}
use study_tips.Base.Int.{pos}
use study_tips.Os.Sockets.{call_descriptors}
use study_tips.Raw6.RawAll.{Replies, addresses, main}
use study_tips.Raw6.RawUdp.{Inet}
use study_tips.Raw6.RawUdp.Main.{HasSizes}
use study_tips.Raw6.RawAll.Laws.{SendsTwo, main-SendsTwo}

abbrev here : List ℕ
here = 0 ∷ 0 ∷ 0 ∷ 0 ∷ 0 ∷ 0 ∷ 0 ∷ 0 ∷ 0 ∷ 0 ∷ 0 ∷ 0 ∷ 0 ∷ 0 ∷ 0 ∷ 1 ∷ []

abbrev replies : Replies
replies = record { on_socket = pos 3; on_bind = pos 0; on_send = λ round. pos 560 }

-- Converters that know the one address.
abbrev inet : Inet
inet = record { pton6 = λ text. some here; pton4 = λ text. none; atoi = λ text. pos 0 }

inet-HasSizes : HasSizes inet
inet-HasSizes = record { size6 = λ text a e. ground (arith, e); size4 = λ text a e. absurd (cc e) }

main-SendsTwo_example : SendsTwo here here replies (main inet [] [] (here ∷ []) replies)
unfolding addresses
main-SendsTwo_example = main-SendsTwo inet inet-HasSizes [] [] (here ∷ []) replies refl refl
