-- ===== src/Raw6/RawUdp/Sent.antt =====
-- The datagrams that a run of c/raw6/rawudp.c hands to the kernel.
use study_tips.Base.{ℕ, ◌≤◌, ◌≡◌, refl, arith, Bool, true, false, length, List, [], if◌then◌else◌}
use study_tips.Base.Int.{ℤ, pos, is_neg}
use study_tips.Header.Memory.{IsBytes}
use study_tips.Os.{Run, exit, ◌▸◌}
use study_tips.Os.Sockets.{Call, socket, bind, close}
use study_tips.Raw6.RawUdp.{Replies, Settings, run_with, send_v6, send_v4, ab_pkt_info}
use study_tips.Raw6.RawUdp.Packet.{packet_v6-IsPacket, packet_v4-IsPacket, ab_pkt_info-IsFramed}
use study_tips.Raw6.RawUdp.PacketHeader.{packet_v6-HasHeader, packet_v4-HasHeader}
use study_tips.Raw6.RawUdp.Ports.{packet_v6-HasPorts, packet_v4-HasPorts}
use study_tips.Raw6.RawUdp.Main.{HasAddresses}
use study_tips.Raw6.RawUdp.Datagram.{sent, SendsAccepted, packet-SendsAccepted}

module _ (from to : List ℕ) (content_len : ℕ) (bytes_from : IsBytes from)
    (bytes_to : IsBytes to) where
  send_v6-SendsAccepted :
      (r : Replies) (sock : ℤ) (rest : Run Call)
      → length from ≡ 16
      → length to ≡ 16
      → content_len ≤ 4048
      → sent rest ≡ []
      → SendsAccepted from to content_len (send_v6 r sock from to false content_len rest)
  unfolding send_v6
  send_v6-SendsAccepted r sock rest hf ht small quiet =
      let p =
        packet_v6-IsPacket ab_pkt_info from to content_len (ab_pkt_info-IsFramed 48) hf ht small in
      let h = packet_v6-HasHeader from to content_len hf ht small p.returns in
      let ports = packet_v6-HasPorts from to content_len hf ht small p.returns in
      rw p.returns (
        packet-SendsAccepted from to content_len bytes_from bytes_to 6 8 24 16 40 r sock rest hf ht
          (omega arith) p h ports quiet)

  send_v4-SendsAccepted :
      (r : Replies) (sock : ℤ) (rest : Run Call)
      → length from ≡ 4
      → length to ≡ 4
      → content_len ≤ 4068
      → sent rest ≡ []
      → SendsAccepted from to content_len (send_v4 r sock from to false content_len rest)
  unfolding send_v4
  send_v4-SendsAccepted r sock rest hf ht small quiet =
      let p =
        packet_v4-IsPacket ab_pkt_info from to content_len (ab_pkt_info-IsFramed 28) hf ht small in
      let h = packet_v4-HasHeader from to content_len hf ht small p.returns in
      let ports = packet_v4-HasPorts from to content_len hf ht small p.returns in
      rw p.returns (
        packet-SendsAccepted from to content_len bytes_from bytes_to 9 12 16 4 20 r sock rest hf ht
          (omega arith) p h ports quiet)

-- The addresses that a run uses, and the most content that fits the buffer behind its headers.
abbrev pub from_of : Settings → List ℕ
from_of s = if s.is_v4 then s.from4 else s.from

abbrev pub to_of : Settings → List ℕ
to_of s = if s.is_v4 then s.to4 else s.to

abbrev pub most_content : Settings → ℕ
most_content s = if s.is_v4 then 4068 else 4048

SendsAccepted-close :
    {from to : List ℕ} {content_len : ℕ} {run : Run Call} (sock : ℤ) (a : List ℕ) (rc : ℤ)
    → SendsAccepted from to content_len run
    → SendsAccepted from to content_len (socket sock ▸ bind sock a rc ▸ run)
SendsAccepted-close sock a rc h = record {
  datagram = h.datagram;
  sends = h.sends;
  bytes = h.bytes;
  whole = h.whole;
  source_port = h.source_port;
  destination_port = h.destination_port;
  length_field = h.length_field;
  content = h.content;
  accepted = h.accepted;
}

-- Without `-v`, with a socket that is opened and bound, addresses of the families' sizes and a content
-- that fits the buffer, a run of `main` from its options on sends one datagram, to the destination: from
-- port 12760 to 22760, of the content's length and 8 bytes, as its length field says, with zeros for its
-- content. A receiver's checksum over the addresses, the protocol and those bytes is 0xFFFF.
pub run_with-SendsAccepted :
    (r : Replies) (s : Settings)
    → HasAddresses s
    → IsBytes (from_of s)
    → IsBytes (to_of s)
    → is_neg r.on_socket ≡ false
    → is_neg r.on_bind ≡ false
    → s.iovec_flag ≡ false
    → s.content_len ≤ most_content s
    → SendsAccepted (from_of s) (to_of s) s.content_len (run_with r s)
unfolding run_with
run_with-SendsAccepted r s h bytes_from bytes_to opened bound plain small =
    rw (opened, bound, plain)
      (SendsAccepted-close r.on_socket (from_of s) r.on_bind (
        by_family s.is_v4 s.from s.to s.from4 s.to4 h.from6 h.to6 h.from4 h.to4 bytes_from bytes_to
          small))
  where
    by_family :
        (is_v4 : Bool) (from to from4 to4 : List ℕ)
        → length from ≡ 16
        → length to ≡ 16
        → length from4 ≡ 4
        → length to4 ≡ 4
        → IsBytes (if is_v4 then from4 else from)
        → IsBytes (if is_v4 then to4 else to)
        → s.content_len ≤ (if is_v4 then 4068 else 4048)
        → SendsAccepted (if is_v4 then from4 else from) (if is_v4 then to4 else to) s.content_len (
            if is_v4
            then send_v4 r r.on_socket from4 to4 false s.content_len
                (close r.on_socket ▸ exit (pos 0))
            else send_v6 r r.on_socket from to false s.content_len
                (close r.on_socket ▸ exit (pos 0)))
    by_family true from to from4 to4 hf ht hf4 ht4 bf bt fits =
        send_v4-SendsAccepted from4 to4 s.content_len bf bt r r.on_socket
          (close r.on_socket ▸ exit (pos 0)) hf4 ht4 fits refl
    by_family false from to from4 to4 hf ht hf4 ht4 bf bt fits =
        send_v6-SendsAccepted from to s.content_len bf bt r r.on_socket
          (close r.on_socket ▸ exit (pos 0)) hf ht fits refl
