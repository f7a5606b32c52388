-- ===== src/Raw6/Server/Tests.antt =====
-- c/raw6/server.c at concrete answers.
use study_tips.Base.{replicate, arith, refl, some, ◌≡◌, true, none, [], ◌∷◌}
use study_tips.Base.Int.{pos, minus_one}
use study_tips.Os.{left_open, exits}
use study_tips.Os.Sockets.{call_descriptors}
use study_tips.Raw6.RawUdp.{Inet}
use study_tips.Header.Memory.{all_bytes-IsBytes}
use study_tips.Raw6.Server.Shows.{lines, show_all-lines}
use study_tips.Raw6.Server.{show_all, Replies, main}
use study_tips.Raw6.Server.Laws.{options, main_rounds}

abbrev replies : Replies
replies = record {
  on_socket = pos 3;
  on_bind = pos 0;
  on_rounds = (pos 20, pos 0) ∷ (pos 20, pos 0) ∷ (minus_one, pos 0) ∷ [];
}

abbrev inet : Inet
inet = record { pton6 = λ text. none; pton4 = λ text. none; atoi = λ text. pos 0 }

main_rounds_example :
    (options (main inet [] [] replies) ≡ 1 ∷ 0 ∷ [])
    × (exits (main inet [] [] replies) ≡ true)
    × (left_open [] (main inet [] [] replies) ≡ [])
main_rounds_example = main_rounds inet [] [] replies

-- A packet of a UDP header alone, over a buffer with nines.
show_all-lines_example :
    show_all (replicate 50 9) 0 ((49 ∷ 216 ∷ 88 ∷ 232 ∷ 0 ∷ 8 ∷ 0 ∷ 0 ∷ []) ∷ [])
    ≡ some (lines (replicate 50 9) 0 ((49 ∷ 216 ∷ 88 ∷ 232 ∷ 0 ∷ 8 ∷ 0 ∷ 0 ∷ []) ∷ []))
show_all-lines_example =
    show_all-lines (replicate 50 9) 0 ((49 ∷ 216 ∷ 88 ∷ 232 ∷ 0 ∷ 8 ∷ 0 ∷ 0 ∷ []) ∷ [])
      (omega arith) (all_bytes-IsBytes (replicate 50 9) refl)
      (all_bytes-IsBytes (49 ∷ 216 ∷ 88 ∷ 232 ∷ 0 ∷ 8 ∷ 0 ∷ 0 ∷ []) refl, _)
