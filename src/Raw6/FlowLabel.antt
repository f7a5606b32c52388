-- ===== src/Raw6/FlowLabel.antt =====
-- c/raw6/flowlabel.c: a datagram to its own socket, with a flow label in the address.
pub mod Laws
use study_tips.Base.{ℕ, ◌++◌, List, [], ◌∷◌, if◌then◌else◌, replicate}
use study_tips.Base.Int.{ℤ, pos, minus_one, is_neg}
use study_tips.Os.{Run, exit, ◌▸◌}
use study_tips.Os.Sockets.{Call, socket, bind, getsockname, sendto, recvfrom, close}
use study_tips.Raw6.RawUdp.{hello_world}

pub record Replies : Type 0 where
  pub on_socket : ℤ
  pub on_bind : ℤ
  pub bound : List ℕ  -- the address that `getsockname` writes into `from`
  pub on_send : ℤ
  pub on_recv : ℤ

pub main : Replies → Run Call
main r =
    let sock = r.on_socket in
    socket sock
    ▸ (if is_neg sock
        then exit minus_one
        else bind sock (replicate 16 0) r.on_bind
          ▸ (if is_neg r.on_bind
              then close sock ▸ exit minus_one
              else getsockname sock
                ▸ sendto sock r.bound hello_world r.on_send
                ▸ recvfrom sock r.on_recv
                ▸ close sock
                ▸ exit (pos 0)))
