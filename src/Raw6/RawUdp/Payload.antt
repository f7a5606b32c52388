-- ===== src/Raw6/RawUdp/Payload.antt =====
-- The `-v` branch of c/raw6/rawudp.c: what the gathered datagrams are.
use study_tips.Base.{
  ℕ, ◌+◌, ◌≤◌, ◌<◌, ◌≡◌, ◌≢◌, refl, arith, length, Option, some, List, [], ◌∷◌, ◌++◌, inl, inr,
}
use study_tips.Header.Memory.{Mem, byte, load-byte, store16, htons}
use study_tips.Header.Block.{slice, IsFramed}
use study_tips.Header.Sum.Laws.{ones, words}
use study_tips.Header.Checksums.Words.{words_ext, Writes16, store16-Writes16}
use study_tips.Header.Checksums.{udp4_header_checksum, udp6_header_checksum}
use study_tips.Header.Checksums.Received.{IsPlaced, IsChecksummed}
use study_tips.Header.Checksums.Udp.{
  udp4_header_checksum-IsChecksummed, udp6_header_checksum-IsChecksummed,
}
use study_tips.Raw6.RawUdp.{buffer_size, ab_pkt_info, hello_world, iovec_len, gather_v6, gather_v4}
use study_tips.Raw6.RawUdp.Packet.{ab_pkt_info_zero}

-- The eight bytes of a header that lies inside the memory.
eight : Mem → ℕ → List ℕ
eight m p =
    byte m p
    ∷ byte m (p + 1)
    ∷ byte m (p + 1 + 1)
    ∷ byte m (p + 1 + 1 + 1)
    ∷ byte m (p + 1 + 1 + 1 + 1)
    ∷ byte m (p + 1 + 1 + 1 + 1 + 1)
    ∷ byte m (p + 1 + 1 + 1 + 1 + 1 + 1)
    ∷ byte m (p + 1 + 1 + 1 + 1 + 1 + 1 + 1)
    ∷ []

slice-eight : (m : Mem) (p : ℕ) → p + 8 ≤ length m → slice m p 8 ≡ some (eight m p)
unfolding slice eight
slice-eight m p h = rw (
  load-byte m p (omega arith),
  load-byte m (p + 1) (omega arith),
  load-byte m (p + 1 + 1) (omega arith),
  load-byte m (p + 1 + 1 + 1) (omega arith),
  load-byte m (p + 1 + 1 + 1 + 1) (omega arith),
  load-byte m (p + 1 + 1 + 1 + 1 + 1) (omega arith),
  load-byte m (p + 1 + 1 + 1 + 1 + 1 + 1) (omega arith),
  load-byte m (p + 1 + 1 + 1 + 1 + 1 + 1 + 1) (omega arith),
)

-- What a receiver adds up for a datagram given by its bytes, with the pseudo-header from the buffer.
abbrev pub received_bytes : Mem → (src dst len proto : ℕ) → List ℕ → ℕ
received_bytes m src dst len proto bytes =
    ones (
      length bytes
      + words m src len
      + words m dst len
      + byte m proto
      + words bytes 0 (length bytes))

-- The gathered datagram of a header at `udp`: the length of the header and the text, and a sum that
-- is not 0xFFFF.
pub record IsMismatched (m : Mem) (src dst len proto : ℕ) (call : Option (List ℕ)) : Type 0 where
  pub bytes : List ℕ
  pub returns : call ≡ some bytes
  pub whole : length bytes ≡ 20
  pub mismatch : received_bytes m src dst len proto bytes ≢ 65535

-- A sum that is accepted is not when the text is added.
text_spoils : (t s : ℕ) → ones t ≡ 65535 → s ≡ t + words hello_world 0 12 → ones s ≢ 65535
unfolding ones words
text_spoils t s h e = ground arith

-- With `-v` `sendV6` gathers the header and the text, 20 bytes, and a receiver finds no right sum: the
-- checksum was taken over the buffer, which holds zeros where the text would stand.
pub gather_v6-IsMismatched :
    (m : Mem) → IsFramed buffer_size 48 ab_pkt_info m → IsMismatched m 8 24 16 6 (gather_v6 m)
unfolding gather_v6
gather_v6-IsMismatched m f = record {
  bytes = eight done.out 40 ++ hello_world;
  returns = rw (
    first.returns,
    done.returns,
    slice-eight done.out 40 (omega (arith, done.same_length, first.same_length, f.size)),
  );
  whole = unfold eight in refl;
  mismatch = spoiled;
}
  where
    first : Writes16 m 44 iovec_len (store16 m 44 (htons iovec_len))
    first = store16-Writes16 m 44 iovec_len f.bytes (omega (arith, f.size)) (omega arith)

    placed : IsPlaced first.out 8 24 16 6 40 iovec_len
    placed = record {
      bytes = first.bytes;
      src_before = omega arith;
      dst_before = omega arith;
      proto_before = omega arith;
      fits = omega (arith, first.same_length, f.size);
      has_header = omega arith;
      small = omega arith;
      has_address = omega arith;
    }

    done :
        IsChecksummed first.out 8 24 16 6 40 iovec_len
          (udp6_header_checksum first.out 0 40 iovec_len)
    done = udp6_header_checksum-IsChecksummed first.out 0 40 iovec_len placed

    below : (j : ℕ) → j < 44 → byte done.out j ≡ byte m j
    below j h =
        omega (arith, done.others j (inl h), first.others j (λ e. omega arith) (λ e. omega arith))

    zeros : (j : ℕ) → 48 ≤ j → byte done.out j ≡ 0
    zeros j h = omega (
      arith,
      done.others j (inr h),
      first.others j (λ e. omega arith) (λ e. omega arith),
      f.above j h,
      ab_pkt_info_zero j,
    )

    spoiled : received_bytes m 8 24 16 6 (eight done.out 40 ++ hello_world) ≢ 65535
    spoiled =
        unfold eight words in
        text_spoils
          (iovec_len
            + words done.out 8 16
            + words done.out 24 16
            + byte done.out 6
            + words done.out 40 iovec_len)
          _ done.accepted
          (omega (
            arith,
            words_ext m done.out 8 16 (λ j a b. below j (omega arith)),
            words_ext m done.out 24 16 (λ j a b. below j (omega arith)),
            below 6 (omega arith),
            zeros 48 (omega arith),
            zeros 49 (omega arith),
            zeros 50 (omega arith),
            zeros 51 (omega arith),
            zeros 52 (omega arith),
            zeros 53 (omega arith),
            zeros 54 (omega arith),
            zeros 55 (omega arith),
            zeros 56 (omega arith),
            zeros 57 (omega arith),
            zeros 58 (omega arith),
            zeros 59 (omega arith),
          ))

-- So it is with `sendV4`.
pub gather_v4-IsMismatched :
    (m : Mem) → IsFramed buffer_size 28 ab_pkt_info m → IsMismatched m 12 16 4 9 (gather_v4 m)
unfolding gather_v4
gather_v4-IsMismatched m f = record {
  bytes = eight done.out 20 ++ hello_world;
  returns = rw (
    first.returns,
    done.returns,
    slice-eight done.out 20 (omega (arith, done.same_length, first.same_length, f.size)),
  );
  whole = unfold eight in refl;
  mismatch = spoiled;
}
  where
    first : Writes16 m 24 iovec_len (store16 m 24 (htons iovec_len))
    first = store16-Writes16 m 24 iovec_len f.bytes (omega (arith, f.size)) (omega arith)

    placed : IsPlaced first.out 12 16 4 9 20 iovec_len
    placed = record {
      bytes = first.bytes;
      src_before = omega arith;
      dst_before = omega arith;
      proto_before = omega arith;
      fits = omega (arith, first.same_length, f.size);
      has_header = omega arith;
      small = omega arith;
      has_address = omega arith;
    }

    done :
        IsChecksummed first.out 12 16 4 9 20 iovec_len
          (udp4_header_checksum first.out 0 20 iovec_len)
    done = udp4_header_checksum-IsChecksummed first.out 0 20 iovec_len placed

    below : (j : ℕ) → j < 24 → byte done.out j ≡ byte m j
    below j h =
        omega (arith, done.others j (inl h), first.others j (λ e. omega arith) (λ e. omega arith))

    zeros : (j : ℕ) → 28 ≤ j → byte done.out j ≡ 0
    zeros j h = omega (
      arith,
      done.others j (inr h),
      first.others j (λ e. omega arith) (λ e. omega arith),
      f.above j h,
      ab_pkt_info_zero j,
    )

    spoiled : received_bytes m 12 16 4 9 (eight done.out 20 ++ hello_world) ≢ 65535
    spoiled =
        unfold eight words in
        text_spoils
          (iovec_len
            + words done.out 12 4
            + words done.out 16 4
            + byte done.out 9
            + words done.out 20 iovec_len)
          _ done.accepted
          (omega (
            arith,
            words_ext m done.out 12 4 (λ j a b. below j (omega arith)),
            words_ext m done.out 16 4 (λ j a b. below j (omega arith)),
            below 9 (omega arith),
            zeros 28 (omega arith),
            zeros 29 (omega arith),
            zeros 30 (omega arith),
            zeros 31 (omega arith),
            zeros 32 (omega arith),
            zeros 33 (omega arith),
            zeros 34 (omega arith),
            zeros 35 (omega arith),
            zeros 36 (omega arith),
            zeros 37 (omega arith),
            zeros 38 (omega arith),
            zeros 39 (omega arith),
          ))
