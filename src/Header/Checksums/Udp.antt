-- ===== src/Header/Checksums/Udp.antt =====
-- `udp4_header_checksum` and `udp6_header_checksum` of c/common/header.h: a receiver accepts what
-- they write.
use study_tips.Base.{ℕ, ◌+◌, ◌-◌, ◌%◌, ◌^◌, ◌≤◌, ◌<◌, ◌≡◌, ◌⊎◌, arith, some, bit_and}
use native.Mathlib.Nat.{add_assoc}
use study_tips.Base.Bits.{bit_and_low}
use study_tips.Base.Word.{u16, u32}
use study_tips.Header.Memory.{Mem, byte, load, load-byte, htons, store16}
use study_tips.Header.Layout.Ipv4
use study_tips.Header.Layout.Ipv6
use study_tips.Header.Sum.{checksum}
use study_tips.Header.Sum.Laws.{ones, ones-le, words, words-le, checksum_lem}
use study_tips.Header.Checksums.{
  udp_checksum, udp4_header_checksum, udp6_header_checksum, complement,
}
use study_tips.Header.Checksums.Words.{words_ext, words-field16, Writes16, store16-Writes16}
use study_tips.Header.Checksums.Received.{received, IsPlaced, IsChecksummed, fold_all, fill_up}

module _ (m : Mem) (src dst len proto udp udp_len : ℕ)
    (placed : IsPlaced m src dst len proto udp udp_len) where
  open placed use {
    bytes, src_before, dst_before, proto_before, fits, has_header, small, has_address,
  }

  first : Writes16 m (udp + 4) (u16 udp_len) (store16 m (udp + 4) (htons (u16 udp_len)))
  first = store16-Writes16 m (udp + 4) (u16 udp_len) bytes (omega arith) (omega arith)

  second : Writes16 first.out (udp + 6) 0 (store16 first.out (udp + 6) (htons 0))
  second =
      store16-Writes16 first.out (udp + 6) 0 first.bytes (omega (arith, first.same_length))
        (omega arith)

  -- The accumulator after each of the calls of `Checksum`.
  sum1 : ℕ
  sum1 = ones (u32 udp_len + words first.out src len)

  sum2 : ℕ
  sum2 = ones (sum1 + words first.out dst len)

  sum3 : ℕ
  sum3 =
      ones (u32 (sum2 + bit_and (byte first.out proto) 0x00FF) + words second.out udp (u32 udp_len))

  sum1_lem : checksum first.out (u32 udp_len) (some src) len ≡ some sum1
  unfolding sum1
  sum1_lem =
      checksum_lem first.out first.bytes (u32 udp_len) src len (omega (arith, first.same_length))
        (omega arith) (omega (arith, words-le first.out first.bytes src len))

  sum2_lem : checksum first.out sum1 (some dst) len ≡ some sum2
  unfolding sum1 sum2
  sum2_lem =
      checksum_lem first.out first.bytes sum1 dst len (omega (arith, first.same_length))
        (omega arith)
        (omega (
          arith,
          words-le first.out first.bytes dst len,
          ones-le (u32 udp_len + words first.out src len),
        ))

  sum2_le : sum2 ≤ 65535
  unfolding sum2
  sum2_le = ones-le (sum1 + words first.out dst len)

  sum3_lem :
      checksum second.out
        (u32 (sum2 + bit_and (byte first.out proto) 0x00FF))
        (some udp)
        (u32 udp_len)
      ≡ some sum3
  unfolding sum3
  sum3_lem =
      checksum_lem second.out second.bytes (u32 (sum2 + bit_and (byte first.out proto) 0x00FF)) udp
        (u32 udp_len) (omega (arith, first.same_length, second.same_length)) (omega arith)
        (omega (
          arith,
          words-le second.out second.bytes udp (u32 udp_len),
          ones-le (sum1 + words first.out dst len),
          bit_and_low 8 (byte first.out proto),
          sum2_le,
        ))

  third :
      Writes16 second.out
        (udp + 6)
        (u16 (2 ^ 32 - 1 - sum3))
        (store16 second.out (udp + 6) (complement sum3))
  third =
      store16-Writes16 second.out (udp + 6) (u16 (2 ^ 32 - 1 - sum3)) second.bytes
        (omega (arith, first.same_length, second.same_length)) (omega arith)

  udp_checksum_returns : udp_checksum m src dst len proto udp udp_len ≡ some third.out
  unfolding udp_checksum
  udp_checksum_returns =
      let read : load first.out proto ≡ some (byte first.out proto) =
        load-byte first.out proto (omega (arith, first.same_length)) in
      rw (first.returns, sum1_lem, sum2_lem, read, second.returns, sum3_lem, third.returns)

  kept : (j : ℕ) → (j < udp + 4) ⊎ (udp + 8 ≤ j) → byte third.out j ≡ byte m j
  kept j h = ground (arith, third.others j, second.others j, first.others j)

  kept_below : (p size : ℕ) → p + size ≤ udp → words third.out p size ≡ words first.out p size
  kept_below p size h =
      words_ext first.out third.out p size
        (λ j a b. omega (arith, third.others j (omega arith), second.others j (omega arith)))

  -- What the code adds up before it stores the complement.
  total : ℕ
  total =
      udp_len
      + words third.out src len
      + words third.out dst len
      + byte third.out proto
      + words second.out udp udp_len

  sum3-total : sum3 ≡ ones total
  unfolding sum1 sum2 sum3 total
  sum3-total =
      let small_len : u32 udp_len ≡ udp_len = omega arith in
      let small_proto : byte first.out proto % 2 ^ 8 ≡ byte first.out proto =
        omega (arith, first.bytes proto) in
      let same_proto : byte third.out proto ≡ byte first.out proto =
        omega (arith, third.others proto (omega arith), second.others proto (omega arith)) in
      rw
        (
          bit_and_low 8 (byte first.out proto),
          kept_below src len src_before,
          kept_below dst len dst_before,
          same_proto,
          small_len,
          small_proto,
        )
        (fold_all udp_len (words first.out src len) (words first.out dst len) (byte first.out proto)
          (words second.out udp udp_len) (first.bytes proto))

  third_accepted : received third.out src dst len proto udp udp_len ≡ 65535
  unfolding total
  third_accepted =
      let grown : words third.out udp udp_len
          ≡ words second.out udp udp_len + u16 (2 ^ 32 - 1 - sum3) =
        omega (
          arith,
          words-field16 second.out third.out 3 udp (udp + 6) udp_len (omega arith) (omega arith)
              third.others,
          second.field,
          third.field,
        ) in
      rw (grown, sum3-total, ← add_assoc) (fill_up total (omega arith))

  pub udp_checksum-IsChecksummed :
      IsChecksummed m src dst len proto udp udp_len (udp_checksum m src dst len proto udp udp_len)
  udp_checksum-IsChecksummed = record {
    out = third.out;
    returns = udp_checksum_returns;
    same_length = omega (arith, first.same_length, second.same_length, third.same_length);
    bytes = third.bytes;
    length_field = ground (
      arith,
      first.field,
      second.others (udp + 4),
      second.others (udp + 4 + 1),
      third.others (udp + 4),
      third.others (udp + 4 + 1),
    );
    accepted = third_accepted;
    others = kept;
  }

-- For headers that lie inside the object, the IPv4 header before a datagram of 8 to 65535 bytes,
-- `udp4_header_checksum` touches nothing outside the object and returns; it writes the length and the
-- checksum, so that a receiver's sum over the pseudo-header and the datagram is 0xFFFF, and changes
-- no other byte.
pub udp4_header_checksum-IsChecksummed :
    (m : Mem) (ip udp udp_len : ℕ)
    → IsPlaced m
        (ip + Ipv4.src_addr)
        (ip + Ipv4.dst_addr)
        4
        (ip + Ipv4.type_of_protocol)
        udp
        udp_len
    → IsChecksummed m
        (ip + Ipv4.src_addr)
        (ip + Ipv4.dst_addr)
        4
        (ip + Ipv4.type_of_protocol)
        udp
        udp_len
        (udp4_header_checksum m ip udp udp_len)
unfolding udp4_header_checksum
udp4_header_checksum-IsChecksummed m ip udp udp_len placed =
    udp_checksum-IsChecksummed m (ip + Ipv4.src_addr) (ip + Ipv4.dst_addr) 4
      (ip + Ipv4.type_of_protocol) udp udp_len placed

-- For headers that lie inside the object, the IPv6 header before a datagram of 8 to 65535 bytes,
-- `udp6_header_checksum` touches nothing outside the object and returns; it writes the length and the
-- checksum, so that a receiver's sum over the pseudo-header and the datagram is 0xFFFF, and changes
-- no other byte.
pub udp6_header_checksum-IsChecksummed :
    (m : Mem) (ip udp udp_len : ℕ)
    → IsPlaced m (ip + Ipv6.src_addr) (ip + Ipv6.dst_addr) 16 (ip + Ipv6.next_header) udp udp_len
    → IsChecksummed m
        (ip + Ipv6.src_addr)
        (ip + Ipv6.dst_addr)
        16
        (ip + Ipv6.next_header)
        udp
        udp_len
        (udp6_header_checksum m ip udp udp_len)
unfolding udp6_header_checksum
udp6_header_checksum-IsChecksummed m ip udp udp_len placed =
    udp_checksum-IsChecksummed m (ip + Ipv6.src_addr) (ip + Ipv6.dst_addr) 16
      (ip + Ipv6.next_header) udp udp_len placed
