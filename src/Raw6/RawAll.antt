-- ===== src/Raw6/RawAll.antt =====
-- c/raw6/rawall.c: whole IPv6 packets on a raw socket that only sends; the content grows from packet
-- to packet. `on_send` has the kernel's answers in order.
pub mod Round
pub mod Laws
mod Tests
use study_tips.Base.{
  ℕ, zero, suc, ◌+◌, ◌%◌, ◌^◌, Bool, Option, none, some, List, [], ◌∷◌, if◌then◌else◌, replicate,
  ltb,
}
use study_tips.Base.Int.{ℤ, pos, minus_one, is_neg}
use study_tips.Base.Word.{u16}
use study_tips.Header.Memory.{Mem, store16, htons, ◌>>=◌}
use study_tips.Header.Block.{slice}
use study_tips.Header.Layout.Ipv6
use study_tips.Header.Layout.Udp
use study_tips.Os.{Run, exit, fault, running, ◌▸◌}
use study_tips.Os.Sockets.{Call, socket, bind, sendto, close}
use study_tips.Raw6.RawUdp.{Inet, or_else, buffer_size, ab_pkt_info, put_ipv6_header}

pub record Replies : Type 0 where
  pub on_socket : ℤ
  pub on_bind : ℤ
  pub on_send : ℕ → ℤ

-- The UDP header that each round of the loop writes.
pub put_udp : Mem → ℕ → Option Mem
put_udp m content_len = do
  m1 ← store16 m (Ipv6.size + Udp.src_port) (htons 12760)
  m2 ← store16 m1 (Ipv6.size + Udp.dst_port) (htons 22760)
  m3 ← store16 m2 (Ipv6.size + Udp.udp_length) (htons (u16 (Udp.size + content_len)))
  store16 m3 (Ipv6.size + Udp.check_sum) 0

abbrev pub req_len : ℕ → ℕ
req_len content_len = Ipv6.size + Udp.size + content_len

-- The buffer after a round's writes, and the block that the round hands to `sendto`.
pub put_round : Mem → ℕ → Option (Mem × List ℕ)
put_round m content_len = do
  m1 ← put_udp m content_len
  block ← slice m1 0 (req_len content_len)
  some (m1, block)

-- `do { ... } while (u16ContentLen < 2048)`, a round at a time, with the number of the round;
-- `running` is fuel that has run out.
pub send_rounds : ℕ → Replies → List ℕ → ℕ → Mem → ℕ → Run Call → Run Call
send_rounds zero r to round m content_len rest = running
send_rounds (suc fuel) r to round m content_len rest = elim (put_round m content_len) [
  | none ↦ fault
  | some (m1, block) ↦
      let next = u16 (content_len + 1500) in
      let again = send_rounds fuel r to (round + 1) m1 next rest in
      sendto r.on_socket to block (r.on_send round) ▸ (if ltb next 2048 then again else rest)
]

-- Two rounds: 512, then 2012 bytes.
abbrev pub enough : ℕ
enough = 2

-- The addresses of the source and the destination: the default texts, then the arguments behind the
-- program's name.
pub addresses : Inet → List ℕ → List ℕ → List (List ℕ) → List ℕ × List ℕ
addresses inet from to [] =
    (or_else (inet.pton6 from) (replicate 16 0), or_else (inet.pton6 to) (replicate 16 0))
addresses inet from to (dst ∷ []) = (
  or_else (inet.pton6 from) (replicate 16 0),
  or_else (inet.pton6 dst) (or_else (inet.pton6 to) (replicate 16 0)),
)
addresses inet from to (src ∷ dst ∷ _) = (
  or_else (inet.pton6 src) (or_else (inet.pton6 from) (replicate 16 0)),
  or_else (inet.pton6 dst) (or_else (inet.pton6 to) (replicate 16 0)),
)

-- The calls of `main`, with the addresses.
pub run_from : List ℕ → List ℕ → Replies → Run Call
run_from from to r =
    let sock = r.on_socket in
    socket sock
    ▸ (if is_neg sock
        then exit minus_one
        else bind sock from r.on_bind
          ▸ (if is_neg r.on_bind
              then close sock ▸ exit minus_one
              else elim (put_ipv6_header ab_pkt_info from to 512) [
                | none ↦ fault
                | some m ↦ send_rounds enough r to 0 m 512 (close sock ▸ exit (pos 0))
              ]))

-- `main`, with the default texts and the arguments behind the program's name.
pub main : Inet → List ℕ → List ℕ → List (List ℕ) → Replies → Run Call
main inet from to args r = let found = addresses inet from to args in run_from found.0 found.1 r
