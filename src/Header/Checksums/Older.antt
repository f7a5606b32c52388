-- ===== src/Header/Checksums/Older.antt =====
-- `udp4_header_checksum2` and `udp6_header_checksum2` of c/common/header.h: what they compute.
use study_tips.Base.{
  ℕ, zero, suc, ◌+◌, ◌-◌, ◌*◌, ◌^◌, ◌≤◌, ◌<◌, ◌≡◌, arith, length, some, ap, sym, ◌∙◌,
}
use study_tips.Base.Word.{u16}
use study_tips.Header.Memory.{Mem, byte, IsBytes, load-byte, htons, store16}
use study_tips.Header.Sum.Laws.{ones, ones-le, host_words, csum_lem}
use study_tips.Header.Checksums.{udp_checksum2}
use study_tips.Header.Checksums.Words.{
  field16, host_words_ext, Writes16, store16-Writes16, Writes16_agree,
}
use study_tips.Header.Checksums.Received.{IsPlaced}

host_words-le : (m : Mem) → IsBytes m → (p size : ℕ) → host_words m p size ≤ 32768 * (size + 1)
unfolding host_words
host_words-le m h p zero = omega arith
host_words-le m h p (suc zero) = omega (arith, h p)
host_words-le m h p (suc (suc size)) = omega (arith, h p, h (p + 1), host_words-le m h (p + 2) size)

module _ (m : Mem) (src dst len proto udp udp_len : ℕ)
    (placed : IsPlaced m src dst len proto udp udp_len) where
  open placed use {
    bytes, src_before, dst_before, proto_before, fits, has_header, small, has_address,
  }

  first : Writes16 m (udp + 4) (u16 udp_len) (store16 m (udp + 4) (htons (u16 udp_len)))
  first = store16-Writes16 m (udp + 4) (u16 udp_len) bytes (omega arith) (omega arith)

  second : Writes16 first.out (udp + 6) 0 (store16 first.out (udp + 6) (htons 0))
  second =
      store16-Writes16 first.out (udp + 6) 0 first.bytes (omega (arith, first.same_length))
        (omega arith)

  pub own_sum : ℕ
  own_sum = ones (host_words second.out udp udp_len)

  third : Writes16 second.out (udp + 6) own_sum (store16 second.out (udp + 6) (htons own_sum))
  unfolding own_sum
  third =
      store16-Writes16 second.out (udp + 6) own_sum second.bytes
        (omega (arith, first.same_length, second.same_length))
        (omega (arith, ones-le (host_words second.out udp udp_len)))

  -- The two complements cancel, and nothing of the IP header is left.
  stores_own_sum : udp_checksum2 m src dst len proto udp udp_len ≡ some third.out
  unfolding udp_checksum2 own_sum
  stores_own_sum =
      let l1 : length first.out ≡ length m = first.same_length in
      let sum1 =
        csum_lem first.out first.bytes src len (omega arith)
          (omega (arith, host_words-le first.out first.bytes src len)) in
      let sum2 =
        csum_lem first.out first.bytes dst len (omega arith)
          (omega (arith, host_words-le first.out first.bytes dst len)) in
      let sum =
        csum_lem second.out second.bytes udp udp_len (omega (arith, second.same_length))
          (omega (arith, host_words-le second.out second.bytes udp udp_len)) in
      let read = load-byte first.out proto (omega arith) in
      let cancels : u16 (2 ^ 32 - 1 - (65535 - own_sum)) ≡ own_sum =
        omega (arith, ones-le (host_words second.out udp udp_len)) in
      rw (first.returns, sum1, sum2, read, second.returns, sum, cancels, third.returns)

-- The bytes of the datagram before the sum is taken are its own, but for the two fields written.
second_same :
    (m n : Mem) (src dst len proto src' dst' len' proto' udp udp_len : ℕ)
    (pm : IsPlaced m src dst len proto udp udp_len)
    (pn : IsPlaced n src' dst' len' proto' udp udp_len) (j : ℕ)
    → byte m j ≡ byte n j
    → let a = second m src dst len proto udp udp_len pm in
      let b = second n src' dst' len' proto' udp udp_len pn in byte a.out j ≡ byte b.out j
second_same m n src dst len proto src' dst' len' proto' udp udp_len pm pn j same =
    Writes16_agree (second m src dst len proto udp udp_len pm)
      (second n src' dst' len' proto' udp udp_len pn) j
      (Writes16_agree (first m src dst len proto udp udp_len pm)
        (first n src' dst' len' proto' udp udp_len pn) j same)

-- The checksum that `udp4_header_checksum2` and `udp6_header_checksum2` write says nothing of the IP
-- header: in any two placed packets, of either protocol, with the same datagram, both calls return
-- and write the same checksum, whatever the addresses and the protocol are.
pub udp_checksum2_ignores_ip :
    (m n : Mem) (src dst len proto src' dst' len' proto' udp udp_len : ℕ)
    → IsPlaced m src dst len proto udp udp_len
    → IsPlaced n src' dst' len' proto' udp udp_len
    → ((j : ℕ) → udp ≤ j → j < udp + udp_len → byte m j ≡ byte n j)
    → (a : Mem) × (b : Mem) × (udp_checksum2 m src dst len proto udp udp_len ≡ some a)
      × (udp_checksum2 n src' dst' len' proto' udp udp_len ≡ some b)
      × (field16 a (udp + 6) ≡ field16 b (udp + 6))
unfolding own_sum
udp_checksum2_ignores_ip m n src dst len proto src' dst' len' proto' udp udp_len pm pn same =
    let a = third m src dst len proto udp udp_len pm in
    let b = third n src' dst' len' proto' udp udp_len pn in
    (
      a.out,
      b.out,
      stores_own_sum m src dst len proto udp udp_len pm,
      stores_own_sum n src' dst' len' proto' udp udp_len pn,
      a.field
          ∙ ap ones (
              host_words_ext (second n src' dst' len' proto' udp udp_len pn).out
                (second m src dst len proto udp udp_len pm).out udp udp_len
                (λ j h1 h2.
                  second_same m n src dst len proto src' dst' len' proto' udp udp_len pm pn j
                    (same j h1 h2)))
          ∙ sym b.field,
    )
