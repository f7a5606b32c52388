-- ===== src/Raw6/RawUdp/PayloadLen.antt =====
-- The payload length in the IPv6 header that c/raw6/rawudp.c and c/raw6/rawall.c write.
use study_tips.Base.{ℕ, inl, ◌+◌, ◌≤◌, ◌≡◌, ap, ◌∙◌, arith, length, Option, some, List}
use study_tips.Base.Word.{u16}
use study_tips.Header.Memory.{Mem, htons}
use study_tips.Header.Block.Writes.{
  Writes->>=, fill-Writes, copy-Writes, store-Writes, store16-Writes,
}
use study_tips.Header.Checksums.Words.{field16}
use study_tips.Raw6.RawUdp.{put_ipv6_header, ipproto_udp}
use study_tips.Raw6.RawUdp.Ports.{field16-htons, field16-kept}
use study_tips.Raw6.RawUdp.Addressed.{some_injective}

-- The length of the UDP header and the content, as far as 16 bits go.
pub put_ipv6_header_len :
    (m : Mem) (from to : List ℕ) (content_len : ℕ)
    → 40 ≤ length m
    → length from ≡ 16
    → length to ≡ 16
    → (out : Mem) → put_ipv6_header m from to content_len ≡ some out
    → field16 out 4 ≡ u16 (u16 (8 + content_len))
unfolding put_ipv6_header
put_ipv6_header_len m from to content_len room hf ht =
    let v = u16 (8 + content_len) in
    let P : Option Mem → Type 0 = λ c. (out : Mem) → c ≡ some out → field16 out 4 ≡ u16 v in
    Writes->>= P _ (fill-Writes 40 m 0 0 (omega arith)) λ m1 w1.
      let l1 : length m1 ≡ length m = w1.same_length in
      Writes->>= P _ (store-Writes m1 0 0x60 (omega (arith, l1))) λ m2 w2.
        let l2 : length m2 ≡ length m = w2.same_length ∙ l1 in
        Writes->>= P _ (store16-Writes m2 4 (htons v) (omega (arith, l2))) λ m3 w3.
          let l3 : length m3 ≡ length m = w3.same_length ∙ l2 in
          Writes->>= P _ (store-Writes m3 6 ipproto_udp (omega (arith, l3))) λ m4 w4.
            let l4 : length m4 ≡ length m = w4.same_length ∙ l3 in
            Writes->>= P _ (store-Writes m4 7 128 (omega (arith, l4))) λ m5 w5.
              let l5 : length m5 ≡ length m = w5.same_length ∙ l4 in
              Writes->>= P _ (copy-Writes m5 8 from (omega (arith, l5))) λ m6 w6 out e.
                let l6 : length m6 ≡ length m = w6.same_length ∙ l5 in
                let w7 = copy-Writes m6 24 to (omega (arith, l6)) in
                let last : field16 w7.out 4 ≡ field16 m6 4 =
                  omega (arith, w7.others 4 (inl (omega arith)), w7.others 5 (inl (omega arith))) in
                ap (λ o. field16 o 4) (some_injective e w7.returns)
                ∙ last
                ∙ field16-kept m5 m6 8 4 _ w6 (omega arith)
                ∙ field16-kept m4 m5 7 4 _ w5 (omega arith)
                ∙ field16-kept m3 m4 6 4 _ w4 (omega arith)
                ∙ field16-htons m2 4 v m3 w3
