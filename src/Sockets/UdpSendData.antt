-- ===== src/Sockets/UdpSendData.antt =====
-- c/udpSendData/main.c: many datagrams to one address.
pub mod Laws
use study_tips.Base.{
  ℕ, zero, suc, ◌+◌, ◌-◌, ◌<◌, Option, none, some, List, [], ◌∷◌, if◌then◌else◌, ltb, replicate,
}
use study_tips.Base.Int.{ℤ, pos, minus_one, is_neg, eqb}
use study_tips.Os.{Run, exit, ◌▸◌, Descriptors}

-- The calls, with the kernel's answer at the end.
pub data Call : Type 0 where
  socket : ℤ → Call
  sendto : ℤ → List ℕ → ℕ → ℤ → Call  -- the descriptor, the address, how many bytes
  sleep : ℕ → Call

abbrev pub opened : Call → Option ℤ
opened (socket fd) = if is_neg fd then none else some fd
opened (sendto fd to len sent) = none
opened (sleep seconds) = none

instance abbrev pub call_descriptors : Descriptors Call
call_descriptors = record { opened = opened; closed = λ c. none }

-- The kernel's answers, with the seconds from before each `sendto` to after it, and `inet_pton`.
pub record Replies : Type 0 where
  pub pton4 : List ℕ → Option (List ℕ)
  pub on_socket : ℤ
  pub on_send : ℕ → ℤ
  pub elapsed : ℕ → ℕ

abbrev pub buf_len : ℕ
buf_len = 8192

abbrev pub loops : ℕ
loops = 65536

-- The address of the socket's structure, which was all zeros.
abbrev pub or_zero : Option (List ℕ) → List ℕ
or_zero none = replicate 4 0
or_zero (some a) = a

-- The loop, with the rounds that are left, and `i`.
pub send_all : Replies → List ℕ → ℕ → ℕ → Run Call → Run Call
send_all r to zero i rest = rest
send_all r to (suc rounds) i rest =
    let further = send_all r to rounds (i + 1) rest in
    sendto r.on_socket to buf_len (r.on_send i)
    ▸ (if ltb 1 (r.elapsed i) then sleep 10 ▸ further else further)

-- From the call of `socket` on, for any number of rounds.
pub send_to : Replies → ℕ → List ℕ → Run Call
send_to r rounds to =
    socket r.on_socket
    ▸ (if eqb minus_one r.on_socket then exit minus_one else send_all r to rounds 0 (exit (pos 0)))

-- `main`, with the arguments behind the program's name.
pub main : Replies → List (List ℕ) → Run Call
main r [] = exit minus_one
main r (dest ∷ args) = send_to r loops (or_zero (r.pton4 dest))
