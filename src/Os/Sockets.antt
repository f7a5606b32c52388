-- ===== src/Os/Sockets.antt =====
-- The socket calls of the demos. The last argument of a call is its answer.
use study_tips.Base.{ℕ, Option, none, some, List, if◌then◌else◌}
use study_tips.Base.Int.{ℤ, is_neg}
use study_tips.Os.Defs.{Descriptors}

pub data Call : Type 0 where
  socket : ℤ → Call
  bind : ℤ → List ℕ → ℤ → Call  -- the descriptor and the address
  sendto : ℤ → List ℕ → List ℕ → ℤ → Call  -- the descriptor, the address, the bytes
  sendmsg : ℤ → List ℕ → ℕ → List ℕ → ℤ → Call  -- and the port in the address
  recvfrom : ℤ → ℤ → Call
  setsockopt : ℤ → ℕ → ℤ → Call  -- the descriptor and the option's value
  getsockopt : ℤ → ℤ → Call
  getsockname : ℤ → Call
  poll : ℤ → ℤ → Call
  close : ℤ → Call

abbrev pub opened : Call → Option ℤ
opened (socket fd) = if is_neg fd then none else some fd
opened _ = none

abbrev pub closed : Call → Option ℤ
closed (close fd) = some fd
closed _ = none

instance abbrev pub call_descriptors : Descriptors Call
call_descriptors = record { opened = opened; closed = closed }
