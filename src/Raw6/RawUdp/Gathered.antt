-- ===== src/Raw6/RawUdp/Gathered.antt =====
-- What a run of c/raw6/rawudp.c with `-v` hands to the kernel.
use mathlib.Core.Path.{subst}
use study_tips.Base.{
  ℕ, ◌≤◌, ◌≡◌, ◌≢◌, refl, arith, inl, inr, Bool-cases, Bool, true, false, length, Option, List, [],
  ◌∷◌, if◌then◌else◌,
}
use study_tips.Base.Int.{ℤ, pos, is_neg}
use study_tips.Header.Memory.{Mem, IsBytes}
use study_tips.Header.Sum.Laws.{words}
use study_tips.Os.{Run, exit, fault, running, ◌▸◌}
use study_tips.Os.Sockets.{
  Call, socket, bind, sendto, sendmsg, recvfrom, setsockopt, getsockopt, getsockname, poll, close,
}
use study_tips.Raw6.RawUdp.{
  Replies, Settings, odd_port, run_with, send_v6, send_v4, send_gathered, ab_pkt_info,
}
use study_tips.Raw6.RawUdp.Packet.{packet_v6-IsPacket, packet_v4-IsPacket, ab_pkt_info-IsFramed}
use study_tips.Raw6.RawUdp.Addressed.{HasHeader}
use study_tips.Raw6.RawUdp.PacketHeader.{packet_v6-HasHeader, packet_v4-HasHeader}
use study_tips.Raw6.RawUdp.Payload.{IsMismatched, gather_v6-IsMismatched, gather_v4-IsMismatched}
use study_tips.Raw6.RawUdp.Datagram.{receiver_sum, words_start}
use study_tips.Raw6.RawUdp.Sent.{from_of, to_of, most_content}
use study_tips.Raw6.RawUdp.Main.{HasAddresses}

-- The address, the port in it and the bytes of each `sendmsg`.
abbrev pub messages : Run Call → List (List ℕ × ℕ × List ℕ)
messages (exit c) = []
messages fault = []
messages running = []
messages (socket fd ▸ r) = messages r
messages (bind fd a rc ▸ r) = messages r
messages (sendto fd to bytes rc ▸ r) = messages r
messages (sendmsg fd to port bytes rc ▸ r) = (to, port, bytes) ∷ messages r
messages (recvfrom fd rc ▸ r) = messages r
messages (setsockopt fd v rc ▸ r) = messages r
messages (getsockopt fd rc ▸ r) = messages r
messages (getsockname fd ▸ r) = messages r
messages (poll fd rc ▸ r) = messages r
messages (close fd ▸ r) = messages r

-- A run that sends the same 20 bytes twice, over which a receiver's sum is not 0xFFFF.
pub record SendsMismatched (from to : List ℕ) (run : Run Call) : Type 0 where
  pub datagram : List ℕ
  pub sends : messages run ≡ (to, odd_port, datagram) ∷ (to, 0, datagram) ∷ []
  pub whole : length datagram ≡ 20
  pub mismatch : receiver_sum from to datagram ≢ 65535

module _ (from to : List ℕ) (bytes_from : IsBytes from) (bytes_to : IsBytes to) where
  gathered-SendsMismatched :
      (proto src dst len : ℕ) (r : Replies) (sock : ℤ) (rest : Run Call) (m : Mem)
      {call : Option (List ℕ)}
      → length from ≡ len
      → length to ≡ len
      → HasHeader proto src dst from to m
      → IsMismatched m src dst len proto call
      → messages rest ≡ []
      → SendsMismatched from to (send_gathered r sock to call rest)
  unfolding send_gathered
  gathered-SendsMismatched proto src dst len r sock rest m hf ht h g quiet =
      let sources : words m src len ≡ words from 0 len =
        words_start m from src len (λ i l. omega (arith, h.source i, bytes_from i)) in
      let destinations : words m dst len ≡ words to 0 len =
        words_start m to dst len (λ i l. omega (arith, h.destination i, bytes_to i)) in
      record {
        datagram = g.bytes;
        sends = rw (g.returns, quiet) refl;
        whole = g.whole;
        mismatch = rw (hf, ht, ← sources, ← destinations, ← h.is_udp) g.mismatch;
      }

  send_v6-SendsMismatched :
      (content_len : ℕ) (r : Replies) (sock : ℤ) (rest : Run Call)
      → length from ≡ 16
      → length to ≡ 16
      → content_len ≤ 4048
      → messages rest ≡ []
      → SendsMismatched from to (send_v6 r sock from to true content_len rest)
  unfolding send_v6
  send_v6-SendsMismatched content_len r sock rest hf ht small quiet =
      let p =
        packet_v6-IsPacket ab_pkt_info from to content_len (ab_pkt_info-IsFramed 48) hf ht small in
      let h = packet_v6-HasHeader from to content_len hf ht small p.returns in
      rw p.returns (
        gathered-SendsMismatched 6 8 24 16 r sock rest p.out hf ht h
          (gather_v6-IsMismatched p.out p.framed) quiet)

  send_v4-SendsMismatched :
      (content_len : ℕ) (r : Replies) (sock : ℤ) (rest : Run Call)
      → length from ≡ 4
      → length to ≡ 4
      → content_len ≤ 4068
      → messages rest ≡ []
      → SendsMismatched from to (send_v4 r sock from to true content_len rest)
  unfolding send_v4
  send_v4-SendsMismatched content_len r sock rest hf ht small quiet =
      let p =
        packet_v4-IsPacket ab_pkt_info from to content_len (ab_pkt_info-IsFramed 28) hf ht small in
      let h = packet_v4-HasHeader from to content_len hf ht small p.returns in
      rw p.returns (
        gathered-SendsMismatched 9 12 16 4 r sock rest p.out hf ht h
          (gather_v4-IsMismatched p.out p.framed) quiet)

-- The calls in front.
SendsMismatched-opened :
    {from to : List ℕ} {run : Run Call} (sock : ℤ) (a : List ℕ) (rc : ℤ)
    → SendsMismatched from to run
    → SendsMismatched from to (socket sock ▸ bind sock a rc ▸ run)
SendsMismatched-opened sock a rc h = record {
  datagram = h.datagram;
  sends = h.sends;
  whole = h.whole;
  mismatch = h.mismatch;
}

-- With `-v`, a socket that is opened and bound, addresses of the families' sizes and a content length that
-- fits the buffer, a run of `main` from its options on hands the same 20 bytes to `sendmsg` twice, with the
-- port 1234 and with 0 in the address, and a receiver's checksum over the addresses, the protocol and those
-- bytes is not 0xFFFF.
pub run_with-SendsMismatched :
    (r : Replies) (s : Settings)
    → HasAddresses s
    → IsBytes (from_of s)
    → IsBytes (to_of s)
    → is_neg r.on_socket ≡ false
    → is_neg r.on_bind ≡ false
    → s.iovec_flag ≡ true
    → s.content_len ≤ most_content s
    → SendsMismatched (from_of s) (to_of s) (run_with r s)
unfolding run_with
run_with-SendsMismatched r s h bytes_from bytes_to opened bound gathers small =
    let end = close r.on_socket ▸ exit (pos 0) in
    let of : (b : Bool)
        → s.is_v4 ≡ b
        → IsBytes (if b then s.from4 else s.from) × IsBytes (if b then s.to4 else s.to) =
      λ b e. (
        subst (λ b. IsBytes (if b then s.from4 else s.from)) e bytes_from,
        subst (λ b. IsBytes (if b then s.to4 else s.to)) e bytes_to,
      ) in
    elim (Bool-cases s.is_v4) [
      | inl v4 ↦
          rw (opened, bound, gathers, v4)
            (SendsMismatched-opened r.on_socket s.from4 r.on_bind (
              send_v4-SendsMismatched s.from4 s.to4 (of true v4).0 (of true v4).1 s.content_len r
                r.on_socket end h.from4 h.to4 (ground (arith, small, v4)) refl))
      | inr v6 ↦
          rw (opened, bound, gathers, v6)
            (SendsMismatched-opened r.on_socket s.from r.on_bind (
              send_v6-SendsMismatched s.from s.to (of false v6).0 (of false v6).1 s.content_len r
                r.on_socket end h.from6 h.to6 (ground (arith, small, v6)) refl))
    ]
