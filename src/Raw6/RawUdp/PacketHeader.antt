-- ===== src/Raw6/RawUdp/PacketHeader.antt =====
-- The addresses and the protocol in the packets that c/raw6/rawudp.c builds.
use study_tips.Base.{ℕ, ◌+◌, ◌≤◌, ◌≡◌, arith, length, some, List, inl}
use study_tips.Header.Memory.{Mem}
use study_tips.Header.Checksums.Udp.{
  udp4_header_checksum-IsChecksummed, udp6_header_checksum-IsChecksummed,
}
use study_tips.Raw6.RawUdp.{ab_pkt_info, packet_v6, packet_v4}
use study_tips.Raw6.RawUdp.Packet.{
  put_udp_header-Keeps, put_ipv6_header-Keeps, put_ipv4_header-Keeps, ab_pkt_info-IsFramed,
  IsFramed-IsPlaced,
}
use study_tips.Raw6.RawUdp.Addressed.{
  HasHeader, Shows-HasHeader, kept, put_udp_header-Shows, put_ipv6_header-Shows,
  put_ipv4_header-Shows,
}

module _ (from to : List ℕ) (content_len : ℕ) where
  -- `sendV6` leaves the protocol and the addresses in its packet.
  pub packet_v6-HasHeader :
      {out : Mem}
      → length from ≡ 16
      → length to ≡ 16
      → content_len ≤ 4048
      → packet_v6 ab_pkt_info from to content_len ≡ some out
      → HasHeader 6 8 24 from to out
  unfolding packet_v6
  packet_v6-HasHeader hf ht small e =
      let start = ab_pkt_info-IsFramed 48 in
      let k = put_ipv6_header-Keeps ab_pkt_info from to content_len ab_pkt_info start hf ht in
      let h =
        Shows-HasHeader 6 8 24 from to
          (put_ipv6_header-Shows from to content_len ab_pkt_info start.size hf ht) k.returns in
      let k2 = put_udp_header-Keeps ab_pkt_info k.out 40 (8 + content_len) (omega arith) k.framed in
      let h2 =
        Shows-HasHeader 6 8 24 from to
          (put_udp_header-Shows 6 8 24 from to k.out 40 (8 + content_len) (omega arith)
            (omega arith) h)
          k2.returns in
      let c = udp6_header_checksum-IsChecksummed k2.out 0 40 (8 + content_len) (
        IsFramed-IsPlaced content_len 8 24 16 6 40 k2.framed (omega arith) (omega arith)
          (omega arith)) in
      let h3 =
        kept 6 8 24 from to 40 (omega arith) h2 c.same_length
          (λ j l. c.others j (inl (omega arith))) in
      Shows-HasHeader 6 8 24 from to
        (record { out = c.out; returns = rw (k.returns, k2.returns) c.returns; header = h3 }) e

  -- So does `sendV4`.
  pub packet_v4-HasHeader :
      {out : Mem}
      → length from ≡ 4
      → length to ≡ 4
      → content_len ≤ 4068
      → packet_v4 ab_pkt_info from to content_len ≡ some out
      → HasHeader 9 12 16 from to out
  unfolding packet_v4
  packet_v4-HasHeader hf ht small e =
      let start = ab_pkt_info-IsFramed 28 in
      let k = put_ipv4_header-Keeps ab_pkt_info from to content_len ab_pkt_info start hf ht in
      let h =
        Shows-HasHeader 9 12 16 from to
          (put_ipv4_header-Shows from to content_len ab_pkt_info start.size hf ht) k.returns in
      let k2 = put_udp_header-Keeps ab_pkt_info k.out 20 (8 + content_len) (omega arith) k.framed in
      let h2 =
        Shows-HasHeader 9 12 16 from to
          (put_udp_header-Shows 9 12 16 from to k.out 20 (8 + content_len) (omega arith)
            (omega arith) h)
          k2.returns in
      let c = udp4_header_checksum-IsChecksummed k2.out 0 20 (8 + content_len) (
        IsFramed-IsPlaced content_len 12 16 4 9 20 k2.framed (omega arith) (omega arith)
          (omega arith)) in
      let h3 =
        kept 9 12 16 from to 20 (omega arith) h2 c.same_length
          (λ j l. c.others j (inl (omega arith))) in
      Shows-HasHeader 9 12 16 from to
        (record { out = c.out; returns = rw (k.returns, k2.returns) c.returns; header = h3 }) e
