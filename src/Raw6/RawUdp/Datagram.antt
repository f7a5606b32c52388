-- ===== src/Raw6/RawUdp/Datagram.antt =====
-- A datagram that c/raw6/rawudp.c hands to the kernel, as a receiver sees it.
use study_tips.Base.{
  ℕ, zero, suc, ◌+◌, ◌≤◌, ◌<◌, ◌≡◌, sym, ap, ◌∙◌, arith, length, Option, List, [], ◌∷◌,
}
use study_tips.Base.Int.{ℤ}
use study_tips.Header.Memory.{Mem, byte, IsBytes}
use study_tips.Header.Block.{slice, slice-Reads}
use study_tips.Header.Sum.Laws.{ones, words}
use study_tips.Header.Checksums.Words.{field16, words_same}
use study_tips.Os.{Run, exit, fault, running, ◌▸◌}
use study_tips.Os.Sockets.{
  Call, socket, bind, sendto, sendmsg, recvfrom, setsockopt, getsockopt, getsockname, poll, close,
}
use study_tips.Raw6.RawUdp.{Replies, ipproto_udp, send_block, ab_pkt_info}
use study_tips.Raw6.RawUdp.Packet.{ab_pkt_info_zero, IsPacket}
use study_tips.Raw6.RawUdp.Addressed.{HasHeader}
use study_tips.Raw6.RawUdp.Ports.{HasPorts}

-- The addresses and the bytes that a run hands to `sendto`.
abbrev pub sent : Run Call → List (List ℕ × List ℕ)
sent (exit c) = []
sent fault = []
sent running = []
sent (socket fd ▸ r) = sent r
sent (bind fd a rc ▸ r) = sent r
sent (sendto fd to bytes rc ▸ r) = (to, bytes) ∷ sent r
sent (sendmsg fd to port bytes rc ▸ r) = sent r
sent (recvfrom fd rc ▸ r) = sent r
sent (setsockopt fd v rc ▸ r) = sent r
sent (getsockopt fd rc ▸ r) = sent r
sent (getsockname fd ▸ r) = sent r
sent (poll fd rc ▸ r) = sent r
sent (close fd ▸ r) = sent r

-- What a receiver adds up, from the addresses and the bytes alone (RFC 768, RFC 8200).
abbrev pub receiver_sum : List ℕ → List ℕ → List ℕ → ℕ
receiver_sum from to datagram = ones (
    length datagram
    + words from 0 (length from)
    + words to 0 (length to)
    + ipproto_udp
    + words datagram 0 (length datagram))

-- A run that sends one datagram, to `to`, which states its ports and its length, has zeros for its content
-- and which a receiver accepts.
pub record SendsAccepted (from to : List ℕ) (content_len : ℕ) (run : Run Call) : Type 0 where
  pub datagram : List ℕ
  pub sends : sent run ≡ (to, datagram) ∷ []
  pub bytes : IsBytes datagram
  pub whole : length datagram ≡ 8 + content_len
  pub source_port : field16 datagram 0 ≡ 12760
  pub destination_port : field16 datagram 2 ≡ 22760
  pub length_field : field16 datagram 4 ≡ 8 + content_len
  pub content : (i : ℕ) → i < content_len → byte datagram (8 + i) ≡ 0
  pub accepted : receiver_sum from to datagram ≡ 65535

pub words_start :
    (a b : Mem) (p size : ℕ)
    → ((i : ℕ) → i < size → byte a (p + i) ≡ byte b i)
    → words a p size ≡ words b 0 size
words_start a b p size same = words_same a b p 0 size (λ i l. same i l ∙ ap (byte b) (omega arith))

-- A block of a memory of bytes.
block-IsBytes :
    (block : List ℕ) (m : Mem) (p : ℕ)
    → ((i : ℕ) → i < length block → byte block i ≡ byte m (p + i))
    → IsBytes m
    → IsBytes block
block-IsBytes [] m p same b i = omega arith
block-IsBytes (x ∷ block) m p same b zero = omega (arith, same 0 (omega arith), b (p + 0))
block-IsBytes (x ∷ block) m p same b (suc i) =
    block-IsBytes block m (p + 1) (λ j l. same (suc j) (omega arith) ∙ ap (byte m) (omega arith)) b
      i

-- The datagram in a buffer with a packet.
module _ (from to : List ℕ) (content_len : ℕ) (bytes_from : IsBytes from)
    (bytes_to : IsBytes to) where
  pub packet-SendsAccepted :
      (proto src dst len udp : ℕ) (r : Replies) (sock : ℤ) (rest : Run Call) {call : Option Mem}
      → length from ≡ len
      → length to ≡ len
      → udp + 8 + content_len ≤ 4096
      → (p : IsPacket ab_pkt_info src dst len proto udp (8 + content_len) call)
      → HasHeader proto src dst from to p.out
      → HasPorts udp p.out
      → sent rest ≡ []
      → SendsAccepted from to content_len
          (send_block r sock to (slice p.out udp (8 + content_len)) rest)
  unfolding send_block
  packet-SendsAccepted proto src dst len udp r sock rest hf ht small p h ports quiet =
      let read = slice-Reads (8 + content_len) p.out udp (omega (arith, h.size)) in
      let sources : words p.out src len ≡ words from 0 len =
        words_start p.out from src len (λ i l. omega (arith, h.source i, bytes_from i)) in
      let destinations : words p.out dst len ≡ words to 0 len =
        words_start p.out to dst len (λ i l. omega (arith, h.destination i, bytes_to i)) in
      let content : words p.out udp (8 + content_len) ≡ words read.block 0 (8 + content_len) =
        words_start p.out read.block udp (8 + content_len) (λ i l. sym (read.at i l)) in
      let h_bytes : IsBytes p.out = p.framed.bytes in
      let here : byte p.out (udp + 0) ≡ byte p.out udp = ap (byte p.out) (omega arith) in
      let second : byte p.out (udp + 3) ≡ byte p.out (udp + 2 + 1) =
        ap (byte p.out) (omega arith) in
      let next : byte p.out (udp + 5) ≡ byte p.out (udp + 4 + 1) = ap (byte p.out) (omega arith) in
      record {
        datagram = read.block;
        sends = rw (read.returns) (ap (λ l. (to, read.block) ∷ l) quiet);
        bytes =
            block-IsBytes read.block p.out udp (λ i l. read.at i (omega (arith, read.whole)))
              h_bytes;
        whole = read.whole;
        source_port = omega (arith, ports.source, read.at 0, read.at 1, here);
        destination_port = omega (arith, ports.destination, read.at 2, read.at 3, second);
        length_field = omega (arith, p.length_field, read.at 4, read.at 5, next);
        content = λ i l.
            read.at (8 + i) (omega arith)
            ∙ p.framed.above (udp + (8 + i)) (omega arith)
            ∙ ab_pkt_info_zero (udp + (8 + i));
        accepted =
            rw (read.whole, hf, ht, ← content, ← sources, ← destinations, ← h.is_udp) p.accepted;
      }
