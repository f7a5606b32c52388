-- ===== src/UdpDgram/Laws.antt =====
-- What ace/udpdgram/iovec.cpp shows of the datagram that it receives.
use study_tips.Base.{
  ℕ, zero, suc, ◌+◌, ◌≤◌, ◌<◌, ◌≡◌, ◌≢◌, refl, arith, Bool, true, false, Option, none, some, List,
  [], ◌∷◌, length, replicate, ltb, if◌then◌else◌, ap, dec_lt,
}
use study_tips.Base.Int.{pos, is_neg}
use study_tips.Header.Memory.{Mem}
use study_tips.Os.{Run, fault, ◌▸◌}
use study_tips.UdpDgram.{
  SockDgram, Line, recv_failed, in_sequence, recv_texts, c_string, buffer, event_loop, show_texts,
  show, waited, opening, main,
}

-- A datagram over a buffer, and the part of it that is behind the buffer.
unfoldable pub over : Mem → List ℕ → Mem
over [] g = []
over (x ∷ b) [] = x ∷ b
over (x ∷ b) (y ∷ g) = y ∷ over b g

unfoldable pub behind : Mem → List ℕ → List ℕ
behind [] g = g
behind (x ∷ b) [] = []
behind (x ∷ b) (y ∷ g) = behind b g

-- As `recvmsg` of POSIX says, a datagram fills the buffers one after the other, and what they have no
-- room for is dropped. `next` is the datagram that comes first, if there is one.
pub record IsScattering (udp : SockDgram) (next : udp.State → Option (List ℕ)) : Type 0 where
  pub nothing : (s : udp.State) (b0 b1 : Mem) → next s ≡ none → is_neg (udp.recv s b0 b1).len ≡ true
  pub scattered :
      (s : udp.State) (b0 b1 : Mem) (g : List ℕ)
      → next s ≡ some g
      → ((udp.recv s b0 b1).buf0 ≡ over b0 g) × ((udp.recv s b0 b1).buf1 ≡ over b1 (behind b0 g))
  pub whole :
      (s : udp.State) (b0 b1 : Mem) (g : List ℕ)
      → next s ≡ some g
      → length g ≤ length b0 + length b1
      → (udp.recv s b0 b1).len ≡ pos (length g)
  pub cut :
      (s : udp.State) (b0 b1 : Mem) (g : List ℕ)
      → next s ≡ some g
      → length b0 + length b1 < length g
      → (udp.recv s b0 b1).len ≡ pos (length b0 + length b1)

abbrev pub HasNoZero : List ℕ → Type 0
HasNoZero [] = Unit
HasNoZero (x ∷ g) = (x ≢ 0) × HasNoZero g

c_string-over :
    (n : ℕ) (g : List ℕ)
    → HasNoZero g
    → c_string (over (replicate n 0) g) ≡ (if ltb (length g) n then some g else none)
unfolding c_string over
c_string-over zero g h = ground arith
c_string-over (suc n) [] h = ground arith
c_string-over (suc n) (y ∷ g) (ne, h) =
    let ih = c_string-over n g h in
    elim (dec_lt (length g) n) [
      | yes l ↦
          let e : c_string (over (replicate n 0) g) ≡ some g = ground (arith, ih) in
          rw e (ground arith)
      | no m ↦
          let e : c_string (over (replicate n 0) g) ≡ none = ground (arith, ih) in
          rw e (ground arith)
    ]

behind_short : (n : ℕ) (g : List ℕ) → length g ≤ n → behind (replicate n 0) g ≡ []
unfolding behind
behind_short zero [] h = refl
behind_short zero (y ∷ g) h = absurd (omega arith)
behind_short (suc n) [] h = refl
behind_short (suc n) (y ∷ g) h = behind_short n g (omega arith)

-- The lines that are due for a datagram, or for none: its text is in the first buffer.
abbrev pub due : ℕ → Run Line → Option (List ℕ) → Run Line
due port rest none = recv_failed ▸ rest
due port rest (some g) =
    if ltb (length g) 256 then recv_texts (pos (length g)) port g [] ▸ in_sequence ▸ rest else fault

abbrev pub HasNoZeroIfSome : Option (List ℕ) → Type 0
HasNoZeroIfSome none = Unit
HasNoZeroIfSome (some g) = HasNoZero g

module _ (udp : SockDgram) (next : udp.State → Option (List ℕ)) (h : IsScattering udp next) where
  recv_shown :
      (s : udp.State) (rest : Run Line) (g : List ℕ)
      → next s ≡ some g
      → HasNoZero g
      → show (udp.recv s buffer buffer) rest ≡ due (udp.recv s buffer buffer).port rest (some g)
  unfolding show show_texts
  recv_shown s rest g e z =
      let r = udp.recv s buffer buffer in
      let (e0, e1) = h.scattered s buffer buffer g e in
      let text0 = c_string-over 256 g z in
      elim (dec_lt (length g) 256) [
        | yes l ↦
            let e2 : behind buffer g ≡ [] = behind_short 256 g (omega arith) in
            let t0 : c_string r.buf0 ≡ some g = rw e0 (ground (arith, text0)) in
            let t1 : c_string r.buf1 ≡ some [] = rw (e1, e2) (c_string-over 256 [] tt) in
            let len = h.whole s buffer buffer g e (omega arith) in rw (len, t0, t1) (ground arith)
        | no m ↦
            let t0 : c_string r.buf0 ≡ none = rw e0 (ground (arith, text0)) in
            let len : is_neg r.len ≡ false = elim (dec_lt 512 (length g)) [
              | yes c ↦ ap is_neg (h.cut s buffer buffer g e c)
              | no w ↦ ap is_neg (h.whole s buffer buffer g e (omega arith))
            ] in
            rw (len, t0) (ground arith)
      ]

  show-due :
      (s : udp.State) (rest : Run Line) (o : Option (List ℕ))
      → next s ≡ o
      → HasNoZeroIfSome o
      → show (udp.recv s buffer buffer) rest ≡ due (udp.recv s buffer buffer).port rest o
  unfolding show
  show-due s rest none e z = rw (h.nothing s buffer buffer e) refl
  show-due s rest (some g) e z = recv_shown s rest g e z

  -- With a socket that scatters a datagram over the buffers, whatever datagram comes first, or none, if
  -- it has no zero byte: after the lines about the socket and the sending, `main` logs that there is none;
  -- or, of fewer than 256 bytes, that length, the bytes as the first text, and an empty second text, and
  -- goes on to the reactor; or, of 256 or more, it reads behind its first buffer.
  pub main-due :
      (answers : List Bool)
      → HasNoZeroIfSome (next (waited udp))
      → main udp answers
        ≡ opening udp (
            due (udp.recv (waited udp) buffer buffer).port (event_loop answers) (next (waited udp)))
  unfolding main
  main-due answers z =
      ap (opening udp) (show-due (waited udp) (event_loop answers) (next (waited udp)) refl z)
