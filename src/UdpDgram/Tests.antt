-- ===== src/UdpDgram/Tests.antt =====
-- ace/udpdgram/iovec.cpp on a socket that hands to itself what it sends to its own port.
use study_tips.Base.{
  ℕ, ◌+◌, ◌≡◌, refl, arith, Bool, true, false, Option, none, some, List, [], ◌∷◌, ◌++◌, length, leb,
  not, ◌&&◌, if◌then◌else◌, ◌==◌,
}
use study_tips.Base.Int.{pos, minus_one}
use study_tips.Header.Memory.{Mem}
use study_tips.Os.{exit, ◌▸◌}
use study_tips.UdpDgram.{
  SockDgram, Received, hello, bind_port, iov_lens, sent, recv_texts, in_sequence, shutting_down,
  hello_world, buffer, main, opening, waited, ready, port, show, show_texts, c_string, event_loop,
}
use study_tips.UdpDgram.Laws.{HasNoZero, HasNoZeroIfSome, over, behind, IsScattering, due, main-due}

abbrev joined : List Mem → Mem
joined [] = []
joined (x ∷ xs) = x ++ joined xs

abbrev received : Mem → Mem → List Mem → Received
received b0 b1 [] = record { len = minus_one; buf0 = b0; buf1 = b1; port = 0 }
received b0 b1 (g ∷ s) = record {
  len =
      if leb (length g) (length b0 + length b1)
      then pos (length g)
      else pos (length b0 + length b1);
  buf0 = over b0 g;
  buf1 = over b1 (behind b0 g);
  port = 12701;
}

-- The state is the datagrams that wait.
abbrev loopback : SockDgram
loopback = record {
  State = List Mem;
  bound = λ p. [];
  get_local_port = λ s. 12701;
  enable_nonblock = λ s. s;
  send = λ s pieces to. if to == 12701 then s ++ joined pieces ∷ [] else s;
  send_len = λ s pieces to. pos (length (joined pieces));
  sleep = λ s. s;
  recv = λ s b0 b1. received b0 b1 s;
}

abbrev first : List Mem → Option Mem
first [] = none
first (g ∷ s) = some g

loopback-IsScattering : IsScattering loopback first
loopback-IsScattering = record {
  nothing = elim [ [] ↦ λ b0 b1 e. refl | g ∷ s ↦ λ b0 b1 e. absurd (cc) ];
  scattered = elim [
    | [] ↦ λ b0 b1 g e. absurd (cc)
    | d ∷ s ↦ λ b0 b1 g e. let q : d ≡ g = cc e in rw q (refl, refl)
  ];
  whole = elim [
    | [] ↦ λ b0 b1 g e. absurd (cc)
    | d ∷ s ↦ λ b0 b1 g e fits. let q : d ≡ g = cc e in rw q (ground arith)
  ];
  cut = elim [
    | [] ↦ λ b0 b1 g e. absurd (cc)
    | d ∷ s ↦ λ b0 b1 g e small. let q : d ≡ g = cc e in rw q (ground arith)
  ];
}

-- Both pieces come in one datagram, which fits the first buffer.
logged :
    main loopback (false ∷ true ∷ [])
    ≡ hello
      ▸ bind_port 12701
      ▸ iov_lens 13 13
      ▸ sent (pos 26)
      ▸ recv_texts (pos 26) 12701 (hello_world b'1' ++ hello_world b'2') []
      ▸ in_sequence
      ▸ shutting_down
      ▸ exit (pos 0)
unfolding main opening waited ready port show show_texts c_string event_loop over behind
logged = refl

has_no_zero : List ℕ → Bool
has_no_zero [] = true
has_no_zero (x ∷ g) = not (x == 0) && has_no_zero g

has_no_zero-HasNoZero : (g : List ℕ) → has_no_zero g ≡ true → HasNoZero g
unfolding has_no_zero
has_no_zero-HasNoZero [] e = tt
has_no_zero-HasNoZero (x ∷ g) e = (ground arith, has_no_zero-HasNoZero g (ground arith))

waited-HasNoZero : HasNoZeroIfSome (first (waited loopback))
unfolding waited ready port has_no_zero
waited-HasNoZero = has_no_zero-HasNoZero (hello_world b'1' ++ hello_world b'2') refl

main-due_example :
    main loopback (true ∷ [])
    ≡ opening loopback (
        due
          (received buffer buffer (waited loopback)).port
          (event_loop (true ∷ []))
          (first (waited loopback)))
main-due_example = main-due loopback first loopback-IsScattering (true ∷ []) waited-HasNoZero
