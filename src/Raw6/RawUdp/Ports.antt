-- ===== src/Raw6/RawUdp/Ports.antt =====
-- The ports in the packets that c/raw6/rawudp.c builds.
use study_tips.Base.{
  ℕ, ◌+◌, ◌/◌, ◌≤◌, ◌<◌, ◌≡◌, ap, ◌∙◌, arith, length, Option, some, List, [], ◌∷◌, inl,
}
use study_tips.Base.Word.{u16}
use study_tips.Header.Memory.{Mem, byte, htons}
use study_tips.Header.Block.Writes.{Wrote, Writes->>=, store16-Writes}
use study_tips.Header.Checksums.Words.{field16}
use study_tips.Header.Checksums.Received.{IsChecksummed}
use study_tips.Header.Checksums.Udp.{
  udp4_header_checksum-IsChecksummed, udp6_header_checksum-IsChecksummed,
}
use study_tips.Raw6.RawUdp.{ab_pkt_info, put_udp_header, packet_v6, packet_v4}
use study_tips.Raw6.RawUdp.Packet.{
  put_udp_header-Keeps, put_ipv6_header-Keeps, put_ipv4_header-Keeps, ab_pkt_info-IsFramed,
  IsFramed-IsPlaced,
}
use study_tips.Raw6.RawUdp.Addressed.{some_injective}

-- A UDP header at `udp` with the program's two ports.
pub record HasPorts (udp : ℕ) (m : Mem) : Type 0 where
  pub source : field16 m udp ≡ 12760
  pub destination : field16 m (udp + 2) ≡ 22760

-- Another buffer with the same four bytes.
same-HasPorts :
    (udp : ℕ) (m out : Mem)
    → ((j : ℕ) → udp ≤ j → j < udp + 4 → byte out j ≡ byte m j)
    → HasPorts udp m
    → HasPorts udp out
same-HasPorts udp m out same h = record {
  source = omega (
    arith,
    h.source,
    same udp (omega arith) (omega arith),
    same (udp + 1) (omega arith) (omega arith),
  );
  destination = omega (
    arith,
    h.destination,
    same (udp + 2) (omega arith) (omega arith),
    same (udp + 2 + 1) (omega arith) (omega arith),
  );
}

-- A field that has just been stored, and one that a write elsewhere keeps.
pub field16-htons :
    (m : Mem) (p v : ℕ) (out : Mem)
    → Wrote m p (htons v ∷ htons v / 256 ∷ []) out
    → field16 out p ≡ u16 v
field16-htons m p v out w =
    let first : byte out p ≡ byte out (p + 0) = ap (byte out) (omega arith) in
    omega (arith, first, w.written 0 (omega arith), w.written 1 (omega arith))

pub field16-kept :
    (m out : Mem) (p q : ℕ) (xs : List ℕ)
    → Wrote m p xs out
    → q + 2 ≤ p
    → field16 out q ≡ field16 m q
field16-kept m out p q xs w h =
    omega (arith, w.others q (inl (omega arith)), w.others (q + 1) (inl (omega arith)))

put_udp_header-HasPorts :
    (m : Mem) (udp req_len : ℕ)
    → udp + 8 ≤ length m
    → (out : Mem) → put_udp_header m udp req_len ≡ some out
    → HasPorts udp out
unfolding put_udp_header
put_udp_header-HasPorts m udp req_len room =
    let P : Option Mem → Type 0 = λ c. (out : Mem) → c ≡ some out → HasPorts udp out in
    Writes->>= P _ (store16-Writes m (udp + 0) (htons 12760) (omega arith)) λ m1 w1.
      Writes->>= P _ (store16-Writes m1 (udp + 2) (htons 22760) (omega (arith, w1.same_length)))
        λ m2 w2.
          Writes->>= P _
            (store16-Writes m2 (udp + 4) (htons (u16 req_len))
              (omega (arith, w1.same_length, w2.same_length)))
            λ m3 w3 out e.
              let w4 =
                store16-Writes m3 (udp + 6) 0
                  (omega (arith, w1.same_length, w2.same_length, w3.same_length)) in
              let last : out ≡ w4.out = some_injective e w4.returns in
              let at_end : HasPorts udp m3 = record {
                source =
                    field16-kept m2 m3 (udp + 4) udp _ w3 (omega arith)
                    ∙ field16-kept m1 m2 (udp + 2) udp _ w2 (omega arith)
                    ∙ ap (field16 m1) (omega arith)
                    ∙ field16-htons m (udp + 0) 12760 m1 w1;
                destination =
                    field16-kept m2 m3 (udp + 4) (udp + 2) _ w3 (omega arith)
                    ∙ field16-htons m1 (udp + 2) 22760 m2 w2;
              } in
              rw last
                (same-HasPorts udp m3 w4.out (λ j a b. w4.others j (inl (omega arith))) at_end)

-- The checksum leaves them.
checksum-HasPorts :
    {src dst len proto udp udp_len : ℕ} {m : Mem} {call : Option Mem}
    → (c : IsChecksummed m src dst len proto udp udp_len call) → HasPorts udp m
    → HasPorts udp c.out
checksum-HasPorts {src} {dst} {len} {proto} {udp} {udp_len} {m} c h =
    same-HasPorts udp m c.out (λ j a b. c.others j (inl b)) h

module _ (from to : List ℕ) (content_len : ℕ) where
  pub packet_v6-HasPorts :
      {out : Mem}
      → length from ≡ 16
      → length to ≡ 16
      → content_len ≤ 4048
      → packet_v6 ab_pkt_info from to content_len ≡ some out
      → HasPorts 40 out
  unfolding packet_v6
  packet_v6-HasPorts hf ht small e =
      let start = ab_pkt_info-IsFramed 48 in
      let k = put_ipv6_header-Keeps ab_pkt_info from to content_len ab_pkt_info start hf ht in
      let k2 = put_udp_header-Keeps ab_pkt_info k.out 40 (8 + content_len) (omega arith) k.framed in
      let h =
        put_udp_header-HasPorts k.out 40 (8 + content_len) (omega (arith, k.framed.size)) k2.out
          k2.returns in
      let c = udp6_header_checksum-IsChecksummed k2.out 0 40 (8 + content_len) (
        IsFramed-IsPlaced content_len 8 24 16 6 40 k2.framed (omega arith) (omega arith)
          (omega arith)) in
      let last : packet_v6 ab_pkt_info from to content_len ≡ some c.out =
        rw (k.returns, k2.returns) c.returns in
      rw (some_injective e last) (checksum-HasPorts c h)

  pub packet_v4-HasPorts :
      {out : Mem}
      → length from ≡ 4
      → length to ≡ 4
      → content_len ≤ 4068
      → packet_v4 ab_pkt_info from to content_len ≡ some out
      → HasPorts 20 out
  unfolding packet_v4
  packet_v4-HasPorts hf ht small e =
      let start = ab_pkt_info-IsFramed 28 in
      let k = put_ipv4_header-Keeps ab_pkt_info from to content_len ab_pkt_info start hf ht in
      let k2 = put_udp_header-Keeps ab_pkt_info k.out 20 (8 + content_len) (omega arith) k.framed in
      let h =
        put_udp_header-HasPorts k.out 20 (8 + content_len) (omega (arith, k.framed.size)) k2.out
          k2.returns in
      let c = udp4_header_checksum-IsChecksummed k2.out 0 20 (8 + content_len) (
        IsFramed-IsPlaced content_len 12 16 4 9 20 k2.framed (omega arith) (omega arith)
          (omega arith)) in
      let last : packet_v4 ab_pkt_info from to content_len ≡ some c.out =
        rw (k.returns, k2.returns) c.returns in
      rw (some_injective e last) (checksum-HasPorts c h)
