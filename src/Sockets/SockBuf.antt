-- ===== src/Sockets/SockBuf.antt =====
-- c/sockbuf/main.c: a socket's receive buffer is set and read back.
pub mod Laws
use study_tips.Base.{ℕ, ◌*◌, replicate, if◌then◌else◌}
use study_tips.Base.Int.{ℤ, pos, minus_one, is_neg}
use study_tips.Os.{Run, exit, ◌▸◌}
use study_tips.Os.Sockets.{Call, socket, bind, setsockopt, getsockopt, close}

pub record Replies : Type 0 where
  pub on_socket : ℤ
  pub on_bind : ℤ
  pub on_set : ℤ
  pub on_get : ℤ
  pub on_get_again : ℤ

-- `bufSize`
abbrev pub buf_size : ℕ
buf_size = 1024 * 1024 * 1024

pub main : Replies → Run Call
main r =
    let sock = r.on_socket in
    socket sock
    ▸ (if is_neg sock
        then exit minus_one
        else bind sock (replicate 4 0) r.on_bind
          ▸ (if is_neg r.on_bind
              then exit minus_one
              else setsockopt sock buf_size r.on_set
                ▸ getsockopt sock r.on_get
                ▸ getsockopt sock r.on_get_again
                ▸ close sock
                ▸ exit (pos 0)))
