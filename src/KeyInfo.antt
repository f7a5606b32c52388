-- ===== src/KeyInfo.antt =====
-- c/void/voidptr.c: a packed struct of 8 bytes is passed in a pointer. The host is little-endian, and its
-- pointers have 8 bytes.
pub mod Laws
use study_tips.Base.{ℕ, zero, suc, ◌+◌, ◌*◌, ◌/◌, ◌%◌, List, [], ◌∷◌}
use study_tips.Base.Word.{u8}
use study_tips.Base.Le.{from_le, to_le}

-- T_KeyInfo, with `wData` for the union.
pub record KeyInfo : Type 0 where
  pub kind : ℕ
  pub len : ℕ
  pub word : ℕ

-- The bytes of a T_KeyInfo that was all zeros before its fields were set.
pub to_bytes : KeyInfo → List ℕ
to_bytes k =
    u8 k.kind ∷ u8 k.len ∷ u8 (k.len / 256) ∷ u8 k.word ∷ u8 (k.word / 256) ∷ 0 ∷ 0 ∷ 0 ∷ []

-- A T_KeyInfo read from 8 bytes.
pub read : List ℕ → KeyInfo
read (b0 ∷ b1 ∷ b2 ∷ b3 ∷ b4 ∷ _) = record { kind = b0; len = b1 + b2 * 256; word = b3 + b4 * 256 }
read _ = record { kind = 0; len = 0; word = 0 }

-- `arg = *(void **)&tKeyInfo`
pub as_pointer : KeyInfo → ℕ
as_pointer k = from_le (to_bytes k)

-- `f`: the struct at the address of its argument.
pub f : ℕ → KeyInfo
f arg = read (to_le 8 arg)

-- The struct that `main` passes.
abbrev pub key_info : KeyInfo
key_info = record { kind = 100; len = 2; word = 60000 }
