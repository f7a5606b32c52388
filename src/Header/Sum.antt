-- ===== src/Header/Sum.antt =====
-- `Checksum` and `csum` of c/common/header.h, which add up a block of memory in 16-bit words.
pub mod Laws
use study_tips.Base.{
  ℕ, zero, suc, ◌+◌, ◌-◌, ◌*◌, ◌/◌, ◌%◌, ◌^◌, Option, none, some, bit_and, bit_or, ◌==◌,
  if◌then◌else◌,
}
use study_tips.Base.Word.{u16, u32, u64, ◌<<<◌, ◌>>>◌}
use study_tips.Header.Memory.{Mem, load, ◌>>=◌}

-- A word with the high byte first: `((uint16_t)p[num] << 8 & 0xff00) | ((uint16_t)p[num + 1] & 0xFF)`.
pub word_at : ℕ → ℕ → ℕ
word_at a b = bit_or (bit_and (a <<< 8) 0xff00) (bit_and b 0x00ff)

-- The loop `while (size > 1)` and the odd byte after it, on a uint32_t accumulator.
pub add_words : Mem → ℕ → ℕ → ℕ → Option ℕ
unfolding word_at
add_words m p zero cksum = some cksum
add_words m p (suc zero) cksum = do a ← load m p; some (u32 (cksum + bit_and (a <<< 8) 0xffff))
add_words m p (suc (suc size)) cksum = do
  a ← load m p
  b ← load m (p + 1)
  add_words m (p + 2) size (u32 (cksum + word_at a b))

-- `while (s >> 16) s = (s & 0xffff) + (s >> 16)`; `none` is fuel that has run out.
pub fold_carries : ℕ → ℕ → Option ℕ
fold_carries zero s = none
fold_carries (suc fuel) s =
    let rest = fold_carries fuel (bit_and s 0xffff + s >>> 16) in
    if s >>> 16 == 0 then some s else rest

-- Fuel for any 64-bit sum; a 32-bit one needs 3.
abbrev pub enough : ℕ
enough = 6

-- `Checksum(cksum, pBuffer, size)`; the pointer `none` is NULL.
unfoldable pub checksum : Mem → ℕ → Option ℕ → ℕ → Option ℕ
checksum m cksum none size = some cksum
checksum m cksum (some p) size =
    if size == 0 then some cksum else do s ← add_words m p size cksum; fold_carries enough s

-- The loop of `csum`: words as the little-endian host reads them, on an unsigned long.
pub add_host_words : Mem → ℕ → ℕ → ℕ → Option ℕ
add_host_words m p zero sum = some sum
add_host_words m p (suc zero) sum = do a ← load m p; some (u64 (sum + a))
add_host_words m p (suc (suc packlen)) sum = do
  a ← load m p
  b ← load m (p + 1)
  add_host_words m (p + 2) packlen (u64 (sum + (a + b * 256)))

-- `csum(packet, packlen)`: the complement of the folded sum.
unfoldable pub csum : Mem → ℕ → ℕ → Option ℕ
csum m packet packlen = do
  s ← add_host_words m packet packlen 0
  s' ← fold_carries enough s
  some (u16 (2 ^ 64 - 1 - s'))
