-- ===== src/Raw6/RawUdp/Fault.antt =====
-- A content length that does not fit the buffer of c/raw6/rawudp.c: the checksum reads outside it.
use study_tips.Base.{ℕ, ◌+◌, ◌^◌, ◌<◌, ◌≡◌, arith, length, Option, none, List, Bool}
use study_tips.Base.Int.{ℤ}
use study_tips.Header.Memory.{Mem}
use study_tips.Header.Block.{Keeps->>=}
use study_tips.Header.Checksums.Outside.{header_checksum_outside}
use study_tips.Os.{Run, fault}
use study_tips.Os.Sockets.{Call}
use study_tips.Raw6.RawUdp.{Replies, ab_pkt_info, packet_v6, packet_v4, send_v6, send_v4}
use study_tips.Raw6.RawUdp.Packet.{
  put_udp_header-Keeps, put_ipv6_header-Keeps, put_ipv4_header-Keeps, ab_pkt_info-IsFramed,
}

module _ (from to : List ℕ) (content_len : ℕ) (small : content_len < 2 ^ 16) where
  no_packet_v6 :
      length from ≡ 16
      → length to ≡ 16
      → 4048 < content_len
      → packet_v6 ab_pkt_info from to content_len ≡ none
  unfolding packet_v6
  no_packet_v6 hf ht big =
      let P = λ (c : Option Mem). c ≡ none in
      Keeps->>= P 4096 48 ab_pkt_info _
        (put_ipv6_header-Keeps ab_pkt_info from to content_len ab_pkt_info (ab_pkt_info-IsFramed 48)
          hf ht)
        λ m1 f1.
          Keeps->>= P 4096 48 ab_pkt_info _
            (put_udp_header-Keeps ab_pkt_info m1 40 (8 + content_len) (omega arith) f1)
            λ m2 f2.
              (header_checksum_outside m2 0 40 (8 + content_len) (omega (arith, f2.size))
                (omega (arith, f2.size))).1

  no_packet_v4 :
      length from ≡ 4
      → length to ≡ 4
      → 4068 < content_len
      → packet_v4 ab_pkt_info from to content_len ≡ none
  unfolding packet_v4
  no_packet_v4 hf ht big =
      let P = λ (c : Option Mem). c ≡ none in
      Keeps->>= P 4096 28 ab_pkt_info _
        (put_ipv4_header-Keeps ab_pkt_info from to content_len ab_pkt_info (ab_pkt_info-IsFramed 28)
          hf ht)
        λ m1 f1.
          Keeps->>= P 4096 28 ab_pkt_info _
            (put_udp_header-Keeps ab_pkt_info m1 20 (8 + content_len) (omega arith) f1)
            λ m2 f2.
              (header_checksum_outside m2 0 20 (8 + content_len) (omega (arith, f2.size))
                (omega (arith, f2.size))).0

  -- With a content of more than 4048 bytes, which `-l` allows, `sendV6` reads outside `abPktInfo`,
  -- with and without `-v`.
  pub send_v6-fault :
      (r : Replies) (sock : ℤ) (iovec_flag : Bool) (rest : Run Call)
      → length from ≡ 16
      → length to ≡ 16
      → 4048 < content_len
      → send_v6 r sock from to iovec_flag content_len rest ≡ fault
  unfolding send_v6
  send_v6-fault r sock iovec_flag rest hf ht big = rw (no_packet_v6 hf ht big) (ground arith)

  -- With a content of more than 4068 bytes `sendV4` does so.
  pub send_v4-fault :
      (r : Replies) (sock : ℤ) (iovec_flag : Bool) (rest : Run Call)
      → length from ≡ 4
      → length to ≡ 4
      → 4068 < content_len
      → send_v4 r sock from to iovec_flag content_len rest ≡ fault
  unfolding send_v4
  send_v4-fault r sock iovec_flag rest hf ht big = rw (no_packet_v4 hf ht big) (ground arith)
