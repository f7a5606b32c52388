-- ===== src/Tsn/Rfc1982.antt =====
-- The comparisons of c/tsn/main.c against the order of RFC 1982 that its comment quotes.
use study_tips.Base.{ℕ, ◌+◌, ◌-◌, ◌^◌, ◌<◌, ◌≡◌, ◌⊎◌, ◌↔◌, true, false, arith}
use study_tips.Base.Bits.{bit_and_one_bit}
use study_tips.Base.Word.{u32}
use study_tips.Tsn.{truth, tsn_lt, tsn_lte, tsn_lt2, tsn_lte2, ssn_lt, ssn_lte, ssn_lt2, ssn_lte2}

-- "s1 is less than s2", for numbers of which `half` is the value 2 ^ (SERIAL_BITS - 1).
abbrev pub SerialLt : ℕ → ℕ → ℕ → Type 0
SerialLt half i j = ((i < j) × (j < i + half)) ⊎ ((j < i) × (j + half < i))

-- The pairs that the RFC leaves undefined: half the number space apart.
abbrev pub Opposite : ℕ → ℕ → ℕ → Type 0
Opposite half i j = (i + half ≡ j) ⊎ (j + half ≡ i)

module _ (s t : ℕ) (s_fits : s < 2 ^ 32) (t_fits : t < 2 ^ 32) where
  -- On 32 bits `TSN_lt` holds for the pairs that the RFC orders so, and for opposite pairs, and for
  -- no other.
  pub tsn_lt-SerialLt :
      (truth (tsn_lt s t) ≡ true) ↔ (SerialLt (2 ^ 31) s t ⊎ Opposite (2 ^ 31) s t)
  unfolding tsn_lt
  tsn_lt-SerialLt = ground (arith, bit_and_one_bit 31 (u32 (s + 2 ^ 32 - t)))

  -- On 32 bits the newer `TSN_lt2` and `TSN_lte2` give the same answers as the older `TSN_lt` and `TSN_lte`.
  pub tsn_lt2-tsn_lt : (tsn_lt2 s t ≡ truth (tsn_lt s t)) × (tsn_lte2 s t ≡ tsn_lte s t)
  unfolding tsn_lt tsn_lt2 tsn_lte tsn_lte2
  tsn_lt2-tsn_lt = ground (arith, bit_and_one_bit 31 (u32 (s + 2 ^ 32 - t)))

module _ (s t : ℕ) (s_fits : s < 2 ^ 16) (t_fits : t < 2 ^ 16) where
  -- On 16 bits, after the promotion to int, `SSN_lt` holds for the pairs that the RFC orders so, and
  -- for opposite pairs, and for no other.
  pub ssn_lt-SerialLt :
      (truth (ssn_lt s t) ≡ true) ↔ (SerialLt (2 ^ 15) s t ⊎ Opposite (2 ^ 15) s t)
  unfolding ssn_lt
  ssn_lt-SerialLt = ground (arith, bit_and_one_bit 15 (u32 (s + 2 ^ 32 - t)))

  -- On 16 bits the newer `SSN_lt2` and `SSN_lte2` give the same answers as the older `SSN_lt` and `SSN_lte`.
  pub ssn_lt2-ssn_lt : (ssn_lt2 s t ≡ truth (ssn_lt s t)) × (ssn_lte2 s t ≡ ssn_lte s t)
  unfolding ssn_lt ssn_lt2 ssn_lte ssn_lte2
  ssn_lt2-ssn_lt = ground (arith, bit_and_one_bit 15 (u32 (s + 2 ^ 32 - t)))

-- A TSN that is moved on by less than half the number space, wrapping at 2 ^ 32, comes after the old
-- one, and not before it; a TSN does not come before itself.
pub tsn_lt_advance :
    (s d : ℕ)
    → s < 2 ^ 32
    → d < 2 ^ 31
    → 0 < d
    → (truth (tsn_lt s (u32 (s + d))) ≡ true)
      × (truth (tsn_lt (u32 (s + d)) s) ≡ false)
      × (truth (tsn_lt s s) ≡ false)
unfolding tsn_lt
tsn_lt_advance s d hs hd pos = ground (
  arith,
  bit_and_one_bit 31 (u32 (s + 2 ^ 32 - u32 (s + d))),
  bit_and_one_bit 31 (u32 (u32 (s + d) + 2 ^ 32 - s)),
  bit_and_one_bit 31 (u32 (s + 2 ^ 32 - s)),
)

-- Two TSNs each come before the other exactly when they are opposite.
pub tsn_lt_both :
    (s t : ℕ)
    → s < 2 ^ 32
    → t < 2 ^ 32
    → ((truth (tsn_lt s t) ≡ true) × (truth (tsn_lt t s) ≡ true)) ↔ Opposite (2 ^ 31) s t
tsn_lt_both s t hs ht = ground (arith, tsn_lt-SerialLt s t hs ht, tsn_lt-SerialLt t s ht hs)
