-- ===== src/Sockets/UdpSendData/Laws.antt =====
-- What a run of c/udpSendData/main.c sends and leaves open.
use study_tips.Base.{
  ℕ, zero, suc, ◌+◌, ◌*◌, ◌≡◌, refl, arith, some, List, [], ◌∷◌, if◌then◌else◌, ltb,
}
use study_tips.Base.Int.{ℤ, pos}
use study_tips.Os.{Run, exit, fault, running, ◌▸◌, left_open, status}
use study_tips.Sockets.UdpSendData.{
  Call, socket, sendto, sleep, call_descriptors, Replies, buf_len, loops, or_zero, send_all,
  send_to, main,
}

-- The bytes that a run hands to `sendto`, and the seconds that it sleeps.
abbrev pub bytes : Run Call → ℕ
bytes (exit c) = 0
bytes fault = 0
bytes running = 0
bytes (socket fd ▸ r) = bytes r
bytes (sendto fd to len sent ▸ r) = len + bytes r
bytes (sleep seconds ▸ r) = bytes r

abbrev pub slept : Run Call → ℕ
slept (exit c) = 0
slept fault = 0
slept running = 0
slept (socket fd ▸ r) = slept r
slept (sendto fd to len sent ▸ r) = slept r
slept (sleep seconds ▸ r) = seconds + slept r

-- How many of some rounds from `i` on take more than a second.
abbrev pub slow_rounds : Replies → ℕ → ℕ → ℕ
slow_rounds r zero i = 0
slow_rounds r (suc rounds) i =
    let further = slow_rounds r rounds (i + 1) in
    if ltb 1 (r.elapsed i) then suc further else further

-- A run of the program from its loop on.
pub record SendsAll (r : Replies) (rounds i : ℕ) (rest run : Run Call) : Type 0 where
  pub same_status : status run ≡ status rest
  pub same_open : (fds : List ℤ) → left_open fds run ≡ left_open fds rest
  pub all_bytes : bytes run ≡ rounds * buf_len + bytes rest
  pub all_sleeps : slept run ≡ slow_rounds r rounds i * 10 + slept rest

send_all-SendsAll :
    (r : Replies) (to : List ℕ) (rounds i : ℕ) (rest : Run Call)
    → SendsAll r rounds i rest (send_all r to rounds i rest)
unfolding send_all
send_all-SendsAll r to zero i rest = record {
  same_status = refl;
  same_open = λ fds. refl;
  all_bytes = omega arith;
  all_sleeps = omega arith;
}
send_all-SendsAll r to (suc rounds) i rest =
    let h = send_all-SendsAll r to rounds (i + 1) rest in
    record {
      same_status = ground (arith, h.same_status);
      same_open = λ fds. ground (arith, h.same_open fds);
      all_bytes = ground (arith, h.all_bytes);
      all_sleeps = ground (arith, h.all_sleeps);
    }

-- The run has sent so many times the buffer, has slept for 10 seconds per slow round, exits with 0 and
-- leaves the socket open.
pub record HasSent (r : Replies) (rounds fd : ℕ) (run : Run Call) : Type 0 where
  pub with_zero : status run ≡ some (pos 0)
  pub sent : bytes run ≡ rounds * buf_len
  pub waited : slept run ≡ slow_rounds r rounds 0 * 10
  pub open_at_end : left_open [] run ≡ pos fd ∷ []

send_to-HasSent :
    (r : Replies) (fd rounds : ℕ) (to : List ℕ)
    → r.on_socket ≡ pos fd
    → HasSent r rounds fd (send_to r rounds to)
unfolding send_to
send_to-HasSent r fd rounds to e =
    let h = send_all-SendsAll r to rounds 0 (exit (pos 0)) in
    record {
      with_zero = ground (arith, e, h.same_status);
      sent = ground (arith, e, h.all_bytes);
      waited = ground (arith, e, h.all_sleeps);
      open_at_end = ground (arith, e, h.same_open (pos fd ∷ []));
    }

-- With an address in the arguments and a socket, `main` exits with 0, has handed 65536 times 8192
-- bytes to `sendto`, has slept for 10 seconds per round that took more than one, and leaves the
-- socket open.
pub main-HasSent :
    (r : Replies) (fd : ℕ) (dest : List ℕ) (args : List (List ℕ))
    → r.on_socket ≡ pos fd
    → HasSent r loops fd (main r (dest ∷ args))
unfolding main
main-HasSent r fd dest args e = send_to-HasSent r fd loops (or_zero (r.pton4 dest)) e
