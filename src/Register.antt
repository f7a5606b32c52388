-- ===== src/Register.antt =====
-- `f` of c/register/main.c: the bytes of a buffer are combined, and the result's bytes are reversed.
pub mod Laws
mod Tests
use study_tips.Base.{ℕ, ◌-◌, ◌^◌, List, [], ◌∷◌, bit_and, bit_or, bit_xor}
use study_tips.Base.Word.{u32, ◌<<<◌, ◌>>>◌}

-- `~crc`
abbrev pub not32 : ℕ → ℕ
not32 crc = 2 ^ 32 - 1 - crc

-- The loop on the bytes.
pub xor_bytes : ℕ → List ℕ → ℕ
xor_bytes crc [] = crc
xor_bytes crc (b ∷ buf) = xor_bytes (bit_xor crc b) buf

-- The bytes of a uint32_t the other way round.
abbrev pub swap_bytes : ℕ → ℕ
swap_bytes crc =
    bit_or
      (bit_or (bit_or (crc >>> 24) (bit_and crc 0xFF0000 >>> 8))
        (bit_and (u32 (crc <<< 8)) 0xFF0000))
      (u32 (crc <<< 24))

pub f : List ℕ → ℕ
f buf = swap_bytes (not32 (xor_bytes (not32 0) buf))
