-- ===== src/Sockets/Raw4/Laws.antt =====
-- Runs of c/raw4/rawbind.c.
use study_tips.Base.{◌≡◌, arith, List, [], ◌∷◌, if◌then◌else◌, ℕ, some, ◌||◌}
use study_tips.Base.Int.{pos, minus_one, is_neg, eqb_refl}
use study_tips.Os.{left_open, status}
use study_tips.Os.Sockets.{call_descriptors}
use study_tips.Raw6.RawUdp.{Inet}
use study_tips.Sockets.Raw4.{Replies, main}

-- `main` exits with 0 if every call succeeds, and with -1 otherwise. It leaves no descriptor open,
-- but for the first socket when the second cannot be created.
pub raw4_runs :
    (inet : Inet) (default : List ℕ) (args : List (List ℕ)) (r : Replies)
    → (status (main inet default args r)
        ≡ some (
            if is_neg r.on_socket
              || (is_neg r.on_second_socket || (is_neg r.on_bind || is_neg r.on_rebind))
            then minus_one
            else pos 0))
      × (left_open [] (main inet default args r) ≡ (
          if is_neg r.on_socket
          then []
          else (if is_neg r.on_second_socket then r.on_socket ∷ [] else [])))
unfolding main
raw4_runs inet default args r = ground (arith, eqb_refl r.on_socket, eqb_refl r.on_second_socket)
