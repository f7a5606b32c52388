-- ===== src/Header/Checksums/Outside.antt =====
-- The UDP checksum functions of c/common/header.h on a datagram that ends outside the object.
use study_tips.Base.{
  ℕ, ◌+◌, ◌/◌, ◌≤◌, ◌<◌, ◌≡◌, arith, length, none, some, length-set, set, bit_and,
}
use study_tips.Base.Word.{u8, u16, u32}
use study_tips.Header.Memory.{Mem, load, store16, htons}
use study_tips.Header.Block.{>>=-none, none->>=}
use study_tips.Header.Sum.{checksum}
use study_tips.Header.Sum.Laws.{add_words_outside}
use study_tips.Header.Layout.Ipv4
use study_tips.Header.Layout.Ipv6
use study_tips.Header.Checksums.{udp_checksum, udp4_header_checksum, udp6_header_checksum}

store16_size : (m : Mem) (p v : ℕ) (out : Mem) → store16 m p v ≡ some out → length out ≡ length m
unfolding store16
store16_size m p v out h =
    ground (arith, length-set m p (u8 v), length-set (set m p (u8 v)) (p + 1) (u8 (v / 256)))

checksum_outside :
    (m : Mem) (c p size : ℕ)
    → p ≤ length m
    → length m < p + size
    → checksum m c (some p) size ≡ none
unfolding checksum
checksum_outside m c p size inside outside =
    ground (arith, add_words_outside m p size c inside outside)

pub udp_checksum_outside :
    (m : Mem) (src dst len proto udp udp_len : ℕ)
    → udp ≤ length m
    → length m < udp + u32 udp_len
    → udp_checksum m src dst len proto udp udp_len ≡ none
unfolding udp_checksum
udp_checksum_outside m src dst len proto udp udp_len inside outside =
    >>=-none (store16 m (udp + 4) (htons (u16 udp_len))) _ λ m1 e1.
      >>=-none (checksum m1 (u32 udp_len) (some src) len) _ λ sum1 _.
        >>=-none (checksum m1 sum1 (some dst) len) _ λ sum2 _. >>=-none (load m1 proto) _ λ next _.
          >>=-none (store16 m1 (udp + 6) 0) _ λ m2 e2.
            let size1 = store16_size m (udp + 4) (htons (u16 udp_len)) m1 e1 in
            let size2 = store16_size m1 (udp + 6) 0 m2 e2 in
            none->>= (checksum m2 (u32 (sum2 + bit_and next 0x00FF)) (some udp) (u32 udp_len)) _ (
              checksum_outside m2 (u32 (sum2 + bit_and next 0x00FF)) udp (u32 udp_len) (omega arith)
                (omega arith))

-- Both functions fault on it.
pub header_checksum_outside :
    (m : Mem) (ip udp udp_len : ℕ)
    → udp ≤ length m
    → length m < udp + u32 udp_len
    → (udp4_header_checksum m ip udp udp_len ≡ none)
      × (udp6_header_checksum m ip udp udp_len ≡ none)
unfolding udp4_header_checksum udp6_header_checksum
header_checksum_outside m ip udp udp_len inside outside = (
  udp_checksum_outside m (ip + Ipv4.src_addr) (ip + Ipv4.dst_addr) 4 (ip + Ipv4.type_of_protocol)
      udp udp_len inside outside,
  udp_checksum_outside m (ip + Ipv6.src_addr) (ip + Ipv6.dst_addr) 16 (ip + Ipv6.next_header) udp
      udp_len inside outside,
)
