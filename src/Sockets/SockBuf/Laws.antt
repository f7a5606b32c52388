-- ===== src/Sockets/SockBuf/Laws.antt =====
-- Runs of c/sockbuf/main.c.
use study_tips.Base.{◌≡◌, arith, [], ◌∷◌, if◌then◌else◌, some, ◌||◌}
use study_tips.Base.Int.{pos, minus_one, is_neg, eqb_refl}
use study_tips.Os.{left_open, status}
use study_tips.Os.Sockets.{call_descriptors}
use study_tips.Sockets.SockBuf.{Replies, main}

-- `main` exits with 0 if the socket is created and bound, and with -1 otherwise. It leaves no
-- descriptor open, but for the socket when it cannot be bound.
pub sockbuf_runs :
    (r : Replies)
    → (status (main r) ≡ some (if is_neg r.on_socket || is_neg r.on_bind then minus_one else pos 0))
      × (left_open [] (main r) ≡ (
          if is_neg r.on_socket then [] else (if is_neg r.on_bind then r.on_socket ∷ [] else [])))
unfolding main
sockbuf_runs r = ground (arith, eqb_refl r.on_socket)
