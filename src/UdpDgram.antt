-- ===== src/UdpDgram.antt =====
-- ace/udpdgram/iovec.cpp: sends two pieces of memory as one datagram to itself, receives a datagram
-- into two buffers, and shows what is in them.
-- ACE's datagram socket, and the time that `sleep` lets pass, are a parameter, with their state.
pub mod Laws
mod Tests
use study_tips.Base.{
  ℕ, Bool, true, false, Option, none, some, List, [], ◌∷◌, length, map, replicate, if◌then◌else◌,
  ◌==◌,
}
use study_tips.Base.Int.{ℤ, pos, is_neg}
use study_tips.Header.Memory.{Mem}
use study_tips.Os.{Run, exit, fault, running, ◌▸◌}

-- What `recv` returns, and what it leaves in the two buffers and in `localTo`.
pub record Received : Type 0 where
  pub len : ℤ
  pub buf0 : Mem
  pub buf1 : Mem
  pub port : ℕ

pub record SockDgram : Type 1 where
  pub State : Type 0
  pub bound : ℕ → State
  pub get_local_port : State → ℕ
  pub enable_nonblock : State → State
  pub send : State → List Mem → ℕ → State
  pub send_len : State → List Mem → ℕ → ℤ
  pub sleep : State → State
  pub recv : State → Mem → Mem → Received

-- The lines that `main` logs, with the numbers and texts in them; host addresses are left
-- out, and the sizes of the two buffers.
pub data Line : Type 0 where
  hello recv_failed in_sequence shutting_down : Line
  bind_port : ℕ → Line
  iov_lens : ℕ → ℕ → Line
  sent : ℤ → Line
  recv_texts : ℤ → ℕ → List ℕ → List ℕ → Line  -- the length, the port, the two texts

-- The text that `%s` prints; `none` is one that does not end in the buffer.
pub c_string : Mem → Option (List ℕ)
c_string [] = none
c_string (x ∷ m) =
    let rest = c_string m in
    if x == 0 then some [] else elim rest [ none ↦ none | some text ↦ some (x ∷ text) ]

abbrev pub hello_world : ℕ → Mem
hello_world digit =
    b'h' ∷ b'e' ∷ b'l' ∷ b'l' ∷ b'o' ∷ b' ' ∷ b'w' ∷ b'o' ∷ b'r' ∷ b'l' ∷ b'd' ∷ b' ' ∷ digit ∷ []

abbrev pub iov : List Mem
iov = hello_world b'1' ∷ hello_world b'2' ∷ []

abbrev pub buffer : Mem
buffer = replicate 256 0

-- The loop on the reactor, from what `reactor_event_loop_done` answers in its rounds.
pub event_loop : List Bool → Run Line
event_loop [] = running
event_loop (true ∷ answers) = shutting_down ▸ exit (pos 0)
event_loop (false ∷ answers) = event_loop answers

pub show_texts : Received → Option (List ℕ) → Option (List ℕ) → Run Line → Run Line
show_texts r (some text0) (some text1) rest =
    recv_texts r.len r.port text0 text1 ▸ in_sequence ▸ rest
show_texts r none text1 rest = fault
show_texts r (some text0) none rest = fault

pub show : Received → Run Line → Run Line
unfolding show_texts c_string
show r rest =
    if is_neg r.len
    then recv_failed ▸ rest
    else show_texts r (c_string r.buf0) (c_string r.buf1) rest

module _ (udp : SockDgram) where
  open udp use {State, bound, get_local_port, enable_nonblock, send, send_len, sleep, recv}

  -- The socket before the call of `send`, and the port that it is bound to.
  pub ready : State
  ready = enable_nonblock (bound 12701)

  pub port : ℕ
  port = get_local_port (bound 12701)

  -- The socket before the call of `recv`.
  pub waited : State
  unfolding ready port
  waited = sleep (send ready iov port)

  -- The lines up to the one about `send`.
  pub opening : Run Line → Run Line
  unfolding ready port
  opening rest = hello ▸ bind_port port ▸ iov_lens 13 13 ▸ sent (send_len ready iov port) ▸ rest

  pub main : List Bool → Run Line
  unfolding opening waited show event_loop
  main answers = opening (show (recv waited buffer buffer) (event_loop answers))
