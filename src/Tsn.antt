-- ===== src/Tsn.antt =====
-- c/tsn/main.c: serial number comparison of SCTP's TSNs (32 bits) and SSNs (16 bits), in the two
-- versions that the kernel has had. A C `int` that is used as a truth value stays the bit pattern
-- of the `int` where the code returns `&`, and is a Bool where it returns `<`, `<=` or `||`.
pub mod Rfc1982
mod Tests
use study_tips.Base.{ℕ, ◌+◌, ◌-◌, ◌%◌, ◌^◌, Bool, not, ◌||◌, bit_and, List, [], ◌∷◌}
use study_tips.Base.{ltb, leb, ◌==◌, if◌then◌else◌}
use study_tips.Base.Int.{ℤ, pos, negsuc, is_neg}
use study_tips.Base.Word.{u16, u32}

-- s - t in uint32_t
pub sub32 : ℕ → ℕ → ℕ
sub32 s t = u32 (s + 2 ^ 32 - t)

-- The value of a bit pattern read as int32_t, and as int16_t.
abbrev pub int32 : ℕ → ℤ
int32 w = if ltb w (2 ^ 31) then pos w else negsuc (2 ^ 32 - w - 1)

abbrev pub int16 : ℕ → ℤ
int16 w = if ltb w (2 ^ 15) then pos w else negsuc (2 ^ 16 - w - 1)

abbrev pub is_nonpos : ℤ → Bool
is_nonpos (pos n) = n == 0
is_nonpos (negsuc n) = is_neg (negsuc n)

-- What `if` and `assert` make of an int.
abbrev pub truth : ℕ → Bool
truth n = not (n == 0)

abbrev pub tsn_sign_bit : ℕ
tsn_sign_bit = 2 ^ 31

abbrev pub ssn_sign_bit : ℕ
ssn_sign_bit = 2 ^ 15

pub tsn_lt : ℕ → ℕ → ℕ
unfolding sub32
tsn_lt s t = bit_and (sub32 s t) tsn_sign_bit

pub tsn_lte : ℕ → ℕ → Bool
unfolding sub32
tsn_lte s t = s == t || truth (bit_and (sub32 s t) tsn_sign_bit)

pub tsn_lt2 : ℕ → ℕ → Bool
unfolding sub32
tsn_lt2 s t = is_neg (int32 (sub32 s t))

pub tsn_lte2 : ℕ → ℕ → Bool
unfolding sub32
tsn_lte2 s t = is_nonpos (int32 (sub32 s t))

-- uint16_t operands are promoted to int, so the difference has 32 bits before the mask or the cast.
pub ssn_lt : ℕ → ℕ → ℕ
unfolding sub32
ssn_lt s t = bit_and (sub32 s t) ssn_sign_bit

pub ssn_lte : ℕ → ℕ → Bool
unfolding sub32
ssn_lte s t = s == t || truth (bit_and (sub32 s t) ssn_sign_bit)

pub ssn_lt2 : ℕ → ℕ → Bool
unfolding sub32
ssn_lt2 s t = is_neg (int16 (u16 (sub32 s t)))

pub ssn_lte2 : ℕ → ℕ → Bool
unfolding sub32
ssn_lte2 s t = is_nonpos (int16 (u16 (sub32 s t)))

-- The assertions of `main`, in order.
main : List Bool
unfolding tsn_lt tsn_lte tsn_lt2 tsn_lte2
main =
    tsn_lte 1 1
    ∷ truth (tsn_lt 1 2)
    ∷ truth (tsn_lt 1 0xFFFFFF)
    ∷ truth (tsn_lt 0xFFFFFFFF 1)
    ∷ not (truth (tsn_lt 0xFFFFFFFF 0xFFFFFFFE))
    ∷ not (truth (tsn_lt 0xFFFFFFFF 0xFFFF0000))
    ∷ not (truth (tsn_lt 1 0xFFFFFFFF))
    ∷ tsn_lte2 1 1
    ∷ tsn_lt2 1 2
    ∷ tsn_lt2 1 0xFFFFFF
    ∷ tsn_lt2 0xFFFFFFFF 1
    ∷ not (tsn_lt2 0xFFFFFFFF 0xFFFFFFFE)
    ∷ not (tsn_lt2 0xFFFFFFFF 0xFFFF0000)
    ∷ not (tsn_lt2 1 0xFFFFFFFF)
    ∷ []
