-- ===== src/Raw6/Server.antt =====
-- c/raw6/server.c: receives on a raw socket for ever, and switches IPV6_HDRINCL after each packet.
-- The answers to `recvfrom` and `setsockopt` are given as a list; where it ends the run goes on.
pub mod Laws
pub mod Shows
mod Tests
use study_tips.Base.{
  ℕ, ◌+◌, ◌-◌, Option, some, List, [], ◌∷◌, length, take, if◌then◌else◌, ◌==◌, replicate,
}
use study_tips.Header.Memory.{Mem, htons, ◌>>=◌}
use study_tips.Header.Block.{copy}
use study_tips.Header.Block.Fields.{load_le}
use study_tips.Header.Layout.Ipv6
use study_tips.Header.Layout.Udp
use study_tips.Raw6.RawUdp.{Inet, or_else}
use study_tips.Base.Int.{ℤ, pos, minus_one, is_neg}
use study_tips.Os.{Run, exit, running, ◌▸◌}
use study_tips.Os.Sockets.{Call, socket, bind, recvfrom, setsockopt, close}

pub record Replies : Type 0 where
  pub on_socket : ℤ
  pub on_bind : ℤ
  pub on_rounds : List (ℤ × ℤ)  -- of `recvfrom`, and of `setsockopt`

-- `no = !no`
abbrev pub flip : ℕ → ℕ
flip hdrincl = if hdrincl == 0 then 1 else 0

-- `while (1)`, with the option's value.
pub serve : ℤ → ℕ → List (ℤ × ℤ) → Run Call
serve sock hdrincl [] = running
serve sock hdrincl ((len, rc) ∷ rounds) =
    let rest = serve sock (flip hdrincl) rounds in
    recvfrom sock len
    ▸ (if is_neg len then close sock ▸ exit (pos 0) else setsockopt sock (flip hdrincl) rc ▸ rest)

-- `abPktInfo`
abbrev pub ab_pkt_info : Mem
ab_pkt_info = replicate 4096 0

-- What `recvfrom` leaves of a packet: the bytes that the buffer has room for, over those before.
pub receive : Mem → List ℕ → Option Mem
receive m packet = copy m 0 (take (length m) packet)

-- The numbers that a round prints of a packet: `no`, and the ports as they are behind an IPv6 header,
-- and without it.
pub record Shown : Type 0 where
  pub hdrincl : ℕ
  pub src_port : ℕ
  pub dst_port : ℕ
  pub src_port_no_header : ℕ
  pub dst_port_no_header : ℕ

pub show : Mem → ℕ → Option Shown
show m hdrincl = do
  src ← load_le 2 m (Ipv6.size + Udp.src_port)
  dst ← load_le 2 m (Ipv6.size + Udp.dst_port)
  src_no_header ← load_le 2 m Udp.src_port
  dst_no_header ← load_le 2 m Udp.dst_port
  some (record {
    hdrincl = hdrincl;
    src_port = htons src;
    dst_port = htons dst;
    src_port_no_header = htons src_no_header;
    dst_port_no_header = htons dst_no_header;
  })

-- The same loop, as what it prints of the packets that it receives.
pub show_all : Mem → ℕ → List (List ℕ) → Option (List Shown)
show_all m hdrincl [] = some []
show_all m hdrincl (packet ∷ packets) = do
  m' ← receive m packet
  line ← show m' hdrincl
  rest ← show_all m' (flip hdrincl) packets
  some (line ∷ rest)

-- The address to listen at: the default text, then the program's first argument.
pub listen_address : Inet → List ℕ → List (List ℕ) → List ℕ
listen_address inet default [] = or_else (inet.pton6 default) (replicate 16 0)
listen_address inet default (arg ∷ args) =
    or_else (inet.pton6 arg) (or_else (inet.pton6 default) (replicate 16 0))

-- `main`, with the arguments behind the program's name.
pub main : Inet → List ℕ → List (List ℕ) → Replies → Run Call
main inet default args r =
    let to = listen_address inet default args in
    let sock = r.on_socket in
    socket sock
    ▸ (if is_neg sock
        then exit minus_one
        else bind sock to r.on_bind
          ▸ (if is_neg r.on_bind then close sock ▸ exit minus_one else serve sock 0 r.on_rounds))
