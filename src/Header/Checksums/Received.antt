-- ===== src/Header/Checksums/Received.antt =====
-- What a receiver of a UDP datagram adds up, and what the functions of c/common/header.h that store the
-- checksum are to do.
use study_tips.Base.{ℕ, ◌+◌, ◌-◌, ◌^◌, ◌≤◌, ◌<◌, ◌≡◌, ◌⊎◌, arith, length, Option, some}
use native.Mathlib.Nat.{add_assoc}
use study_tips.Base.Word.{u16, u32}
use study_tips.Header.Memory.{Mem, byte, IsBytes}
use study_tips.Header.Sum.Laws.{ones, ones-le, ones-ones-add, words}
use study_tips.Header.Checksums.Words.{field16}

-- What a receiver adds up (RFC 768, RFC 8200): the pseudo-header, with the length, the addresses and
-- the protocol, and then the datagram. It accepts 0xFFFF.
abbrev pub received : Mem → (src dst len proto udp udp_len : ℕ) → ℕ
received m src dst len proto udp udp_len =
    ones (udp_len + words m src len + words m dst len + byte m proto + words m udp udp_len)

-- The pointers are to places inside the object, the IP header's before the datagram.
pub record IsPlaced (m : Mem) (src dst len proto udp udp_len : ℕ) : Type 0 where
  pub bytes : IsBytes m
  pub src_before : src + len ≤ udp
  pub dst_before : dst + len ≤ udp
  pub proto_before : proto < udp
  pub fits : udp + udp_len ≤ length m
  pub has_header : 8 ≤ udp_len
  pub small : udp_len < 2 ^ 16
  pub has_address : (0 < len) × (len ≤ 16)

pub record IsChecksummed (m : Mem) (src dst len proto udp udp_len : ℕ) (call : Option Mem)
    : Type 0 where
  pub out : Mem
  pub returns : call ≡ some out
  pub same_length : length out ≡ length m
  pub bytes : IsBytes out
  pub length_field : field16 out (udp + 4) ≡ udp_len
  pub accepted : received out src dst len proto udp udp_len ≡ 65535
  pub others : (j : ℕ) → (j < udp + 4) ⊎ (udp + 8 ≤ j) → byte out j ≡ byte m j

pub fold_all :
    (l a b c d : ℕ)
    → c < 256
    → ones (u32 (ones (ones (l + a) + b) + c) + d) ≡ ones (l + a + b + c + d)
fold_all l a b c d h =
    let wraps_not : u32 (ones (l + a + b) + c) ≡ ones (l + a + b) + c =
      omega (arith, ones-le (l + a + b)) in
    rw (ones-ones-add (l + a) b, wraps_not, add_assoc (ones (l + a + b)) c d, ones-ones-add)
      (rw (add_assoc (l + a + b) c d))

pub fill_up : (t : ℕ) → 0 < t → ones (t + u16 (2 ^ 32 - 1 - ones t)) ≡ 65535
unfolding ones
fill_up t h = ground arith
