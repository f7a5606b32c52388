-- ===== src/Header/Checksums/Tests.antt =====
-- The checksums of c/common/header.h at concrete packets.
use study_tips.Base.{
  ℕ, zero, suc, ◌+◌, length, ◌<◌, ◌≤◌, ◌≡◌, refl, arith, some, [], ◌∷◌, ◌++◌, replicate,
}
use study_tips.Header.Memory.{Mem, byte, IsBytes, all_bytes-IsBytes}
use study_tips.Header.Checksums.{
  ipv4_header_checksum, udp4_header_checksum, udp6_header_checksum, udp_checksum2,
}
use study_tips.Header.Checksums.Words.{field16}
use study_tips.Header.Checksums.Received.{IsPlaced, IsChecksummed}
use study_tips.Header.Checksums.Udp.{
  udp4_header_checksum-IsChecksummed, udp6_header_checksum-IsChecksummed,
}
use study_tips.Header.Checksums.Ip.{IsHeader, IsCompleted, ipv4_header_checksum-IsCompleted}
use study_tips.Header.Checksums.Older.{udp_checksum2_ignores_ip}

abbrev datagram : Mem
datagram = 49 ∷ 216 ∷ 88 ∷ 232 ∷ 0 ∷ 0 ∷ 0 ∷ 0 ∷ b'h' ∷ b'i' ∷ []

abbrev header4 : Mem
header4 =
    0x45 ∷ 0 ∷ 0 ∷ 30 ∷ 0 ∷ 0 ∷ 0 ∷ 0 ∷ 128 ∷ 17 ∷ 0 ∷ 0 ∷ 127 ∷ 0 ∷ 0 ∷ 1 ∷ 127 ∷ 0 ∷ 0 ∷ 2 ∷ []

-- To another host.
abbrev other_header4 : Mem
other_header4 =
    0x45 ∷ 0 ∷ 0 ∷ 30 ∷ 0 ∷ 0 ∷ 0 ∷ 0 ∷ 128 ∷ 17 ∷ 0 ∷ 0 ∷ 10 ∷ 0 ∷ 0 ∷ 1 ∷ 10 ∷ 9 ∷ 8 ∷ 7 ∷ []

abbrev packet4 : Mem
packet4 = header4 ++ datagram

abbrev other4 : Mem
other4 = other_header4 ++ datagram

packet4-IsBytes : IsBytes packet4
packet4-IsBytes = all_bytes-IsBytes packet4 refl

other4-IsBytes : IsBytes other4
other4-IsBytes = all_bytes-IsBytes other4 refl

abbrev packet6 : Mem
packet6 =
    (0x60 ∷ 0 ∷ 0 ∷ 0 ∷ 0 ∷ 10 ∷ 17 ∷ 128 ∷ replicate 15 0)
    ++ (1 ∷ replicate 15 0)
    ++ (2 ∷ datagram)

packet6-IsBytes : IsBytes packet6
packet6-IsBytes = all_bytes-IsBytes packet6 refl

packet4-IsPlaced : IsPlaced packet4 12 16 4 9 20 10
packet4-IsPlaced = record {
  bytes = packet4-IsBytes;
  src_before = omega arith;
  dst_before = omega arith;
  proto_before = omega arith;
  fits = omega arith;
  has_header = omega arith;
  small = omega arith;
  has_address = (omega arith, omega arith);
}

other4-IsPlaced : IsPlaced other4 12 16 4 9 20 10
other4-IsPlaced = record {
  bytes = other4-IsBytes;
  src_before = omega arith;
  dst_before = omega arith;
  proto_before = omega arith;
  fits = omega arith;
  has_header = omega arith;
  small = omega arith;
  has_address = (omega arith, omega arith);
}

packet6-IsPlaced : IsPlaced packet6 8 24 16 6 40 10
packet6-IsPlaced = record {
  bytes = packet6-IsBytes;
  src_before = omega arith;
  dst_before = omega arith;
  proto_before = omega arith;
  fits = omega arith;
  has_header = omega arith;
  small = omega arith;
  has_address = (omega arith, omega arith);
}

packet4-IsHeader : IsHeader packet4 0
packet4-IsHeader = record {
  bytes = packet4-IsBytes;
  whole = omega arith;
  fits = omega arith;
  version = omega arith;
}

udp4_header_checksum-IsChecksummed_example :
    IsChecksummed packet4 12 16 4 9 20 10 (udp4_header_checksum packet4 0 20 10)
udp4_header_checksum-IsChecksummed_example =
    udp4_header_checksum-IsChecksummed packet4 0 20 10 packet4-IsPlaced

udp6_header_checksum-IsChecksummed_example :
    IsChecksummed packet6 8 24 16 6 40 10 (udp6_header_checksum packet6 0 40 10)
udp6_header_checksum-IsChecksummed_example =
    udp6_header_checksum-IsChecksummed packet6 0 40 10 packet6-IsPlaced

ipv4_header_checksum-IsCompleted_example : IsCompleted packet4 0 (ipv4_header_checksum packet4 0)
ipv4_header_checksum-IsCompleted_example =
    ipv4_header_checksum-IsCompleted packet4 0 packet4-IsHeader

-- Behind two headers of one length the bytes are those of the tail.
same_tail :
    (p q tail : Mem) (j : ℕ)
    → length p ≡ length q
    → length p ≤ j
    → byte (p ++ tail) j ≡ byte (q ++ tail) j
same_tail [] [] tail j e h = refl
same_tail [] (y ∷ q) tail j e h = absurd (omega arith)
same_tail (x ∷ p) [] tail j e h = absurd (omega arith)
same_tail (x ∷ p) (y ∷ q) tail zero e h = absurd (omega arith)
same_tail (x ∷ p) (y ∷ q) tail (suc j) e h = same_tail p q tail j (omega arith) (omega arith)

same_datagram : (j : ℕ) → 20 ≤ j → j < 20 + 10 → byte packet4 j ≡ byte other4 j
same_datagram j low high = same_tail header4 other_header4 datagram j refl low

udp_checksum2_ignores_ip_example :
    (a : Mem) × (b : Mem) × (udp_checksum2 packet4 12 16 4 9 20 10 ≡ some a)
    × (udp_checksum2 other4 12 16 4 9 20 10 ≡ some b)
    × (field16 a 26 ≡ field16 b 26)
udp_checksum2_ignores_ip_example =
    udp_checksum2_ignores_ip packet4 other4 12 16 4 9 12 16 4 9 20 10 packet4-IsPlaced
      other4-IsPlaced same_datagram
