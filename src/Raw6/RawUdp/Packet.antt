-- ===== src/Raw6/RawUdp/Packet.antt =====
-- The packets that c/raw6/rawudp.c builds in its buffer.
use study_tips.Base.{
  ℕ, ◌+◌, ◌≤◌, ◌<◌, ◌≡◌, refl, arith, length, Option, some, List, inr, length-replicate,
}
use study_tips.Base.Word.{u16}
use study_tips.Header.Memory.{Mem, byte, htons, byte-replicate_zero}
use study_tips.Header.Block.{
  IsFramed, Keeps, Keeps->>=, store-then, store16-then, then, store16-Keeps, fill-Keeps, copy-Keeps,
}
use study_tips.Header.Layout.Ipv4
use study_tips.Header.Layout.Udp
use study_tips.Header.Checksums.Words.{field16}
use study_tips.Header.Checksums.Received.{received, IsPlaced, IsChecksummed}
use study_tips.Header.Checksums.Udp.{
  udp4_header_checksum-IsChecksummed, udp6_header_checksum-IsChecksummed,
}
use study_tips.Raw6.RawUdp.{ab_pkt_info}
use study_tips.Raw6.RawUdp.{
  buffer_size, ipproto_udp, put_udp_header, put_ipv6_header, packet_v6, put_ipv4_header, packet_v4,
}

-- A buffer with a finished packet: the datagram at `udp`, of `req_len` bytes, is accepted with the
-- addresses at `src` and `dst`, and the bytes after the UDP header are those of `start`.
pub record IsPacket (start : Mem) (src dst len proto udp req_len : ℕ) (call : Option Mem)
    : Type 0 where
  pub out : Mem
  pub returns : call ≡ some out
  pub framed : IsFramed buffer_size (udp + 8) start out
  pub length_field : field16 out (udp + 4) ≡ req_len
  pub accepted : received out src dst len proto udp req_len ≡ 65535

-- A checksum over a buffer as the functions before it leave it.
IsChecksummed-IsPacket :
    {start m : Mem} {src dst len proto udp req_len : ℕ} {call : Option Mem}
    → IsFramed buffer_size (udp + 8) start m
    → IsChecksummed m src dst len proto udp req_len call
    → IsPacket start src dst len proto udp req_len call
IsChecksummed-IsPacket f c = record {
  out = c.out;
  returns = c.returns;
  framed = record {
    size = omega (arith, c.same_length, f.size);
    bytes = c.bytes;
    above = λ j h. omega (arith, c.others j (inr h), f.above j h);
  };
  length_field = c.length_field;
  accepted = c.accepted;
}

pub ab_pkt_info_zero : (i : ℕ) → byte ab_pkt_info i ≡ 0
unfolding ab_pkt_info
ab_pkt_info_zero = byte-replicate_zero 4096

pub ab_pkt_info-IsFramed : (top : ℕ) → IsFramed buffer_size top ab_pkt_info ab_pkt_info
unfolding ab_pkt_info
ab_pkt_info-IsFramed top = record {
  size = length-replicate {A = ℕ} 4096 0;
  bytes = λ i. omega (arith, byte-replicate_zero 4096 i);
  above = λ j h. refl;
}

pub put_udp_header-Keeps :
    (start m : Mem) (udp req_len : ℕ)
    → udp + 8 ≤ buffer_size
    → IsFramed buffer_size (udp + 8) start m
    → Keeps buffer_size (udp + 8) start (put_udp_header m udp req_len)
unfolding put_udp_header
put_udp_header-Keeps start m udp req_len h f0 =
    store16-then 4096 (udp + 8) start m (udp + 0) (htons 12760) f0 (omega arith) λ m1 f1.
      store16-then 4096 (udp + 8) start m1 (udp + 2) (htons 22760) f1 (omega arith) λ m2 f2.
        store16-then 4096 (udp + 8) start m2 (udp + 4) (htons (u16 req_len)) f2 (omega arith)
          λ m3 f3. store16-Keeps 4096 (udp + 8) start m3 (udp + 6) 0 f3 (omega arith) (omega arith)

-- What the checksum functions ask for, of a buffer with the headers.
pub IsFramed-IsPlaced :
    (content_len src dst len proto udp : ℕ) {start m : Mem}
    → IsFramed buffer_size (udp + 8) start m
    → (src + len ≤ udp) × (dst + len ≤ udp) × (proto < udp)
    → udp + (8 + content_len) ≤ buffer_size
    → (0 < len) × (len ≤ 16)
    → IsPlaced m src dst len proto udp (8 + content_len)
IsFramed-IsPlaced content_len src dst len proto udp f (hs, hd, hp) small address = record {
  bytes = f.bytes;
  src_before = hs;
  dst_before = hd;
  proto_before = hp;
  fits = omega (arith, f.size);
  has_header = omega arith;
  small = omega arith;
  has_address = address;
}

module _ (start : Mem) (from to : List ℕ) (content_len : ℕ) where
  pub put_ipv6_header-Keeps :
      (m : Mem)
      → IsFramed buffer_size 48 start m
      → length from ≡ 16
      → length to ≡ 16
      → Keeps buffer_size 48 start (put_ipv6_header m from to content_len)
  unfolding put_ipv6_header
  put_ipv6_header-Keeps m f0 hf ht =
      let payload = htons (u16 (Udp.size + content_len)) in
      then 4096 48 start (fill-Keeps 4096 48 start 40 m 0 0 f0 (omega arith) (omega arith)) λ m1 f1.
        store-then 4096 48 start m1 0 0x60 f1 (omega arith) λ m2 f2.
          store16-then 4096 48 start m2 4 payload f2 (omega arith) λ m3 f3.
            store-then 4096 48 start m3 6 ipproto_udp f3 (omega arith) λ m4 f4.
              store-then 4096 48 start m4 7 128 f4 (omega arith) λ m5 f5.
                then 4096 48 start
                  (copy-Keeps 4096 48 start m5 8 from f5 (omega arith) (omega arith))
                  λ m6 f6. copy-Keeps 4096 48 start m6 24 to f6 (omega arith) (omega arith)

  pub put_ipv4_header-Keeps :
      (m : Mem)
      → IsFramed buffer_size 28 start m
      → length from ≡ 4
      → length to ≡ 4
      → Keeps buffer_size 28 start (put_ipv4_header m from to content_len)
  unfolding put_ipv4_header
  put_ipv4_header-Keeps m f0 hf ht =
      let total = htons (u16 (Ipv4.size + Udp.size + content_len)) in
      then 4096 28 start (fill-Keeps 4096 28 start 20 m 0 0 f0 (omega arith) (omega arith)) λ m1 f1.
        store-then 4096 28 start m1 0 0x45 f1 (omega arith) λ m2 f2.
          store16-then 4096 28 start m2 2 total f2 (omega arith) λ m3 f3.
            store-then 4096 28 start m3 9 ipproto_udp f3 (omega arith) λ m4 f4.
              store-then 4096 28 start m4 8 128 f4 (omega arith) λ m5 f5.
                then 4096 28 start
                  (copy-Keeps 4096 28 start m5 12 from f5 (omega arith) (omega arith))
                  λ m6 f6. copy-Keeps 4096 28 start m6 16 to f6 (omega arith) (omega arith)

  -- With addresses of 16 bytes and a content that fits the buffer behind the headers, `sendV6` builds
  -- a packet without a fault: a receiver's sum over the addresses, the protocol and the datagram of
  -- 8 + content_len bytes is 0xFFFF, the length field says so, and nothing behind the headers changed.
  pub packet_v6-IsPacket :
      IsFramed buffer_size 48 start start
      → length from ≡ 16
      → length to ≡ 16
      → content_len ≤ 4048
      → IsPacket start 8 24 16 6 40 (8 + content_len) (packet_v6 start from to content_len)
  unfolding packet_v6
  packet_v6-IsPacket f0 hf ht small =
      let P = IsPacket start 8 24 16 6 40 (8 + content_len) in
      Keeps->>= P 4096 48 start _ (put_ipv6_header-Keeps start f0 hf ht) λ m1 f1.
        Keeps->>= P 4096 48 start _
          (put_udp_header-Keeps start m1 40 (8 + content_len) (omega arith) f1)
          λ m2 f2. IsChecksummed-IsPacket f2 (
            udp6_header_checksum-IsChecksummed m2 0 40 (8 + content_len) (
              IsFramed-IsPlaced content_len 8 24 16 6 40 f2 (omega arith) (omega arith)
                (omega arith)))

  -- With a buffer of 4096 bytes, addresses of 4 bytes and a content of at most 4068 bytes, `sendV4`
  -- writes inside the buffer and in its first 28 bytes alone, the UDP header states the datagram's
  -- length, and a receiver's checksum test accepts the datagram.
  pub packet_v4-IsPacket :
      IsFramed buffer_size 28 start start
      → length from ≡ 4
      → length to ≡ 4
      → content_len ≤ 4068
      → IsPacket start 12 16 4 9 20 (8 + content_len) (packet_v4 start from to content_len)
  unfolding packet_v4
  packet_v4-IsPacket f0 hf ht small =
      let P = IsPacket start 12 16 4 9 20 (8 + content_len) in
      Keeps->>= P 4096 28 start _ (put_ipv4_header-Keeps start f0 hf ht) λ m1 f1.
        Keeps->>= P 4096 28 start _
          (put_udp_header-Keeps start m1 20 (8 + content_len) (omega arith) f1)
          λ m2 f2. IsChecksummed-IsPacket f2 (
            udp4_header_checksum-IsChecksummed m2 0 20 (8 + content_len) (
              IsFramed-IsPlaced content_len 12 16 4 9 20 f2 (omega arith) (omega arith)
                (omega arith)))
