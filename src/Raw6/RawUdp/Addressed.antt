-- ===== src/Raw6/RawUdp/Addressed.antt =====
-- The addresses and the protocol in the IP headers that c/raw6/rawudp.c writes.
use study_tips.Base.{
  ℕ, ◌+◌, ◌≤◌, ◌<◌, ◌≡◌, ◌≢◌, ap, arith, ◌∙◌, length, Option, some, List, [], ◌∷◌, inl,
}
use study_tips.Base.Word.{u8, u16}
use study_tips.Header.Memory.{Mem, byte, htons, store, store16, ◌>>=◌}
use study_tips.Header.Block.{fill, copy}
use study_tips.Header.Block.Writes.{
  Wrote, Writes->>=, fill-Writes, copy-Writes, store-Writes, store16-Writes,
}
use study_tips.Header.Layout.Ipv4
use study_tips.Header.Layout.Udp
use study_tips.Raw6.RawUdp.{
  buffer_size, ipproto_udp, put_udp_header, put_ipv6_header, put_ipv4_header,
}

-- A buffer with the protocol at `proto`, and the addresses at `src` and `dst`.
pub record HasHeader (proto src dst : ℕ) (from to : List ℕ) (m : Mem) : Type 0 where
  pub size : length m ≡ buffer_size
  pub is_udp : byte m proto ≡ ipproto_udp
  pub source : (i : ℕ) → i < length from → byte m (src + i) ≡ u8 (byte from i)
  pub destination : (i : ℕ) → i < length to → byte m (dst + i) ≡ u8 (byte to i)

pub record Shows (proto src dst : ℕ) (from to : List ℕ) (call : Option Mem) : Type 0 where
  pub out : Mem
  pub returns : call ≡ some out
  pub header : HasHeader proto src dst from to out

pub some_injective : {call : Option Mem} {a b : Mem} → call ≡ some a → call ≡ some b → a ≡ b
some_injective ea eb = cc (ea, eb)

module _ (proto src dst : ℕ) (from to : List ℕ) where
  pub Shows-HasHeader :
      {call : Option Mem} {m : Mem}
      → Shows proto src dst from to call
      → call ≡ some m
      → HasHeader proto src dst from to m
  Shows-HasHeader s e = rw (some_injective e s.returns) s.header

  -- A buffer that agrees with the header before `udp`.
  pub kept :
      {m out : Mem} (udp : ℕ)
      → (proto < udp) × (src + length from ≤ udp) × (dst + length to ≤ udp)
      → HasHeader proto src dst from to m
      → length out ≡ length m
      → ((j : ℕ) → j < udp → byte out j ≡ byte m j)
      → HasHeader proto src dst from to out
  kept udp (hp, hs, hd) h len same = record {
    size = len ∙ h.size;
    is_udp = same proto hp ∙ h.is_udp;
    source = λ i l. same (src + i) (omega arith) ∙ h.source i l;
    destination = λ i l. same (dst + i) (omega arith) ∙ h.destination i l;
  }

  -- The UDP header is behind it.
  pub put_udp_header-Shows :
      (m : Mem) (udp req_len : ℕ)
      → (proto < udp) × (src + length from ≤ udp) × (dst + length to ≤ udp)
      → udp + 8 ≤ buffer_size
      → HasHeader proto src dst from to m
      → Shows proto src dst from to (put_udp_header m udp req_len)
  unfolding put_udp_header
  put_udp_header-Shows m udp req_len before room h =
      let P = Shows proto src dst from to in
      Writes->>= P _ (store16-Writes m (udp + 0) (htons 12760) (omega (arith, h.size))) λ m1 w1.
        let h1 = kept udp before h w1.same_length (λ j l. w1.others j (inl (omega arith))) in
        Writes->>= P _ (store16-Writes m1 (udp + 2) (htons 22760) (omega (arith, h1.size))) λ m2 w2.
          let h2 = kept udp before h1 w2.same_length (λ j l. w2.others j (inl (omega arith))) in
          Writes->>= P _
            (store16-Writes m2 (udp + 4) (htons (u16 req_len)) (omega (arith, h2.size)))
            λ m3 w3.
              let h3 = kept udp before h2 w3.same_length (λ j l. w3.others j (inl (omega arith))) in
              let w4 = store16-Writes m3 (udp + 6) 0 (omega (arith, h3.size)) in
              record {
                out = w4.out;
                returns = w4.returns;
                header = kept udp before h3 w4.same_length (λ j l. w4.others j (inl (omega arith)));
              }

-- The writes of both IP headers: zeros, the first byte, a field of two bytes at `field`, the protocol,
-- the time to live and the addresses.
ip_header-Shows :
    (zeros first field value proto ttl src dst : ℕ) (from to : List ℕ) (m : Mem)
    → length m ≡ buffer_size
    → zeros ≤ buffer_size
    → field + 1 < buffer_size
    → (proto < src) × (ttl < src) × (proto ≢ ttl)
    → (src + length from ≤ dst) × (dst + length to ≤ buffer_size)
    → Shows proto src dst from to (do
      m1 ← fill m 0 0 zeros
      m2 ← store m1 0 first
      m3 ← store16 m2 field value
      m4 ← store m3 proto ipproto_udp
      m5 ← store m4 ttl 128
      m6 ← copy m5 src from
      copy m6 dst to)
ip_header-Shows zeros first field value proto ttl src dst from to m len hz hf (hp, hl, ne)
      (hs, hd) =
    let P = Shows proto src dst from to in
    Writes->>= P _ (fill-Writes zeros m 0 0 (omega arith)) λ m1 w1.
      let l1 = w1.same_length ∙ len in
      Writes->>= P _ (store-Writes m1 0 first (omega (arith, l1))) λ m2 w2.
        let l2 = w2.same_length ∙ l1 in
        Writes->>= P _ (store16-Writes m2 field value (omega (arith, l2))) λ m3 w3.
          let l3 = w3.same_length ∙ l2 in
          Writes->>= P _ (store-Writes m3 proto ipproto_udp (omega (arith, l3))) λ m4 w4.
            let l4 = w4.same_length ∙ l3 in
            Writes->>= P _ (store-Writes m4 ttl 128 (omega (arith, l4))) λ m5 w5.
              let l5 = w5.same_length ∙ l4 in
              Writes->>= P _ (copy-Writes m5 src from (omega (arith, l5)))
                λ m6 w6. addressed m4 m5 m6 w4 w5 w6 (w6.same_length ∙ l5)
  where
    addressed :
        {m3 : Mem} (m4 m5 m6 : Mem)
        → Wrote m3 proto (ipproto_udp ∷ []) m4
        → Wrote m4 ttl (128 ∷ []) m5
        → Wrote m5 src from m6
        → length m6 ≡ buffer_size
        → Shows proto src dst from to (copy m6 dst to)
    addressed m4 m5 m6 w4 w5 w6 l6 =
        let w7 = copy-Writes m6 dst to (omega (arith, l6)) in
        record {
          out = w7.out;
          returns = w7.returns;
          header = record {
            size = w7.same_length ∙ l6;
            is_udp =
                w7.others proto (inl (omega arith))
                ∙ w6.others proto (inl (omega arith))
                ∙ w5.others proto (ground arith)
                ∙ ap (byte m4) (omega arith)
                ∙ w4.written 0 (omega arith);
            source = λ i l. w7.others (src + i) (inl (omega arith)) ∙ w6.written i l;
            destination = w7.written;
          };
        }

module _ (from to : List ℕ) (content_len : ℕ) where
  pub put_ipv6_header-Shows :
      (m : Mem)
      → length m ≡ buffer_size
      → length from ≡ 16
      → length to ≡ 16
      → Shows 6 8 24 from to (put_ipv6_header m from to content_len)
  unfolding put_ipv6_header
  put_ipv6_header-Shows m len hf ht =
      ip_header-Shows 40 0x60 4 (htons (u16 (Udp.size + content_len))) 6 7 8 24 from to m len
        (omega arith) (omega arith) (omega arith) (omega arith)

  pub put_ipv4_header-Shows :
      (m : Mem)
      → length m ≡ buffer_size
      → length from ≡ 4
      → length to ≡ 4
      → Shows 9 12 16 from to (put_ipv4_header m from to content_len)
  unfolding put_ipv4_header
  put_ipv4_header-Shows m len hf ht =
      ip_header-Shows 20 0x45 2 (htons (u16 (Ipv4.size + Udp.size + content_len))) 9 8 12 16 from to
        m len (omega arith) (omega arith) (omega arith) (omega arith)
