-- ===== src/Raw6/Server/Laws.antt =====
-- The loop of c/raw6/server.c: the option alternates, and the socket is closed when it ends.
use study_tips.Base.{
  ℕ, zero, suc, ◌≡◌, refl, arith, List, [], ◌∷◌, Bool, true, false, if◌then◌else◌,
}
use study_tips.Base.Int.{ℤ, is_neg, eqb_refl}
use study_tips.Os.{Run, exit, fault, running, ◌▸◌, left_open, exits}
use study_tips.Os.Sockets.{Call, setsockopt, call_descriptors}
use study_tips.Raw6.RawUdp.{Inet}
use study_tips.Raw6.Server.{Replies, flip, serve, main}

-- The values that a run gives to `setsockopt`, in order.
abbrev pub options : Run Call → List ℕ
options (exit c) = []
options fault = []
options running = []
options (setsockopt fd v rc ▸ r) = v ∷ options r
options (e ▸ r) = options r

-- 1, 0, 1, 0, ... or 0, 1, 0, 1, ...
abbrev pub alternating : ℕ → ℕ → List ℕ
alternating v zero = []
alternating v (suc n) = v ∷ alternating (flip v) n

-- The rounds in which something is received, up to the first failure.
abbrev pub received_rounds : List (ℤ × ℤ) → ℕ
received_rounds [] = 0
received_rounds ((len, rc) ∷ rounds) = if is_neg len then 0 else suc (received_rounds rounds)

abbrev pub fails : List (ℤ × ℤ) → Bool
fails [] = false
fails ((len, rc) ∷ rounds) = if is_neg len then true else fails rounds

options-serve :
    (sock : ℤ) (v : ℕ) (rounds : List (ℤ × ℤ))
    → options (serve sock v rounds) ≡ alternating (flip v) (received_rounds rounds)
unfolding serve
options-serve sock v [] = refl
options-serve sock v ((len, rc) ∷ rounds) = ground (arith, options-serve sock (flip v) rounds)

serve_end :
    (sock : ℤ) (v : ℕ) (rounds : List (ℤ × ℤ))
    → (exits (serve sock v rounds) ≡ fails rounds)
      × (left_open (sock ∷ []) (serve sock v rounds) ≡ (if fails rounds then [] else sock ∷ []))
unfolding serve
serve_end sock v [] = (refl, refl)
serve_end sock v ((len, rc) ∷ rounds) =
    ground (arith, eqb_refl sock, serve_end sock (flip v) rounds)

-- Once it is bound, the server sets IPV6_HDRINCL to 1, 0, 1, ... once for each packet that it
-- receives, and it exits exactly when a `recvfrom` fails; it has then closed its socket. When the
-- socket or the bind fails it exits at once, with nothing left open and no option set.
pub main_rounds :
    (inet : Inet) (default : List ℕ) (args : List (List ℕ)) (r : Replies)
    → let run = main inet default args r in
      let up = if is_neg r.on_socket then false else (if is_neg r.on_bind then false else true) in
      (options run ≡ (if up then alternating 1 (received_rounds r.on_rounds) else []))
      × (exits run ≡ (if up then fails r.on_rounds else true))
      × (left_open [] run
          ≡ (if up then (if fails r.on_rounds then [] else r.on_socket ∷ []) else []))
unfolding main
main_rounds inet default args r = ground (
  arith,
  eqb_refl r.on_socket,
  options-serve r.on_socket 0 r.on_rounds,
  serve_end r.on_socket 0 r.on_rounds,
)
