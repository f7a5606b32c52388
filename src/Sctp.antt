-- ===== src/Sctp.antt =====
-- c/sctp/main.c: asks the kernel for a socket of SCTP.
pub mod Laws
use study_tips.Base.{Bool, false, true, if◌then◌else◌, ◌==◌}
use study_tips.Base.Int.{ℤ, pos, negsuc}
use study_tips.Os.{Run, exit, ◌▸◌}
use study_tips.Os.Sockets.{Call, socket, close}

-- `fd <= 0`
abbrev pub is_refused : ℤ → Bool
is_refused (pos n) = n == 0
is_refused (negsuc n) = true

pub main : ℤ → Run Call
main fd = socket fd ▸ (if is_refused fd then exit (pos 1) else close fd ▸ exit (pos 0))
