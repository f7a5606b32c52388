-- ===== src/Register/Laws.antt =====
-- `f` of c/register/main.c puts the exclusive or of the bytes in the highest byte.
use study_tips.Base.{
  ℕ, zero, suc, ◌-◌, ◌*◌, ◌/◌, ◌^◌, ◌<◌, ◌≡◌, refl, arith, ap, Bool, true, ◌&&◌, ◌==◌, List, [],
  ◌∷◌, bit_xor,
}
use study_tips.Base.Bits.{bit_xor_digit, two_pow-suc}
use study_tips.Register.{not32, xor_bytes, swap_bytes, f}

-- The complement in `k` bits goes through an exclusive or with a number of `k` bits.
bit_xor-complement :
    (k a b : ℕ)
    → a < 2 ^ k
    → b < 2 ^ k
    → (bit_xor (2 ^ k - 1 - a) b ≡ 2 ^ k - 1 - bit_xor a b) × (bit_xor a b < 2 ^ k)
bit_xor-complement zero zero zero ha hb = (refl, omega arith)
bit_xor-complement zero (suc a) b ha hb = absurd (omega arith)
bit_xor-complement zero zero (suc b) ha hb = absurd (omega arith)
bit_xor-complement (suc k) a b ha hb =
    let (flipped, small) =
      bit_xor-complement k (a / 2) (b / 2) (omega (arith, two_pow-suc k))
        (omega (arith, two_pow-suc k)) in
    let half : (2 ^ suc k - 1 - a) / 2 ≡ 2 ^ k - 1 - a / 2 = omega (arith, two_pow-suc k) in
    (
      omega (
        arith,
        two_pow-suc k,
        bit_xor_digit (2 ^ suc k - 1 - a) b,
        bit_xor_digit a b,
        flipped,
        small,
        ap (λ (m : ℕ). bit_xor m (b / 2)) half,
      ),
      omega (arith, two_pow-suc k, bit_xor_digit a b, small),
    )

-- The exclusive or of a list of bytes.
abbrev pub xor_of : ℕ → List ℕ → ℕ
xor_of x [] = x
xor_of x (b ∷ buf) = xor_of (bit_xor x b) buf

abbrev pub AreBytes : List ℕ → Type 0
AreBytes [] = Unit
AreBytes (b ∷ buf) = (b < 256) × AreBytes buf

xor_bytes-not32 :
    (buf : List ℕ) (x : ℕ)
    → AreBytes buf
    → x < 256
    → (xor_bytes (not32 x) buf ≡ not32 (xor_of x buf)) × (xor_of x buf < 256)
unfolding xor_bytes
xor_bytes-not32 [] x h small = (refl, small)
xor_bytes-not32 (b ∷ buf) x (hb, h) small =
    let flipped = bit_xor-complement 32 x b (omega arith) (omega arith) in
    let fits = bit_xor-complement 8 x b small hb in
    rw flipped.0 (xor_bytes-not32 buf (bit_xor x b) h fits.1)

-- `swap_bytes` of every byte, by evaluation.
moves_up : ℕ → Bool
moves_up zero = true
moves_up (suc x) = swap_bytes x == x * 2 ^ 24 && moves_up x

moves_up_lem : (n x : ℕ) → moves_up n ≡ true → x < n → swap_bytes x ≡ x * 2 ^ 24
unfolding moves_up
moves_up_lem zero x h lt = absurd (omega arith)
moves_up_lem (suc n) x h lt = ground (arith, moves_up_lem n x)

swap_bytes_byte : (x : ℕ) → x < 256 → swap_bytes x ≡ x * 2 ^ 24
unfolding moves_up
swap_bytes_byte x h = moves_up_lem 256 x refl h

-- On bytes, `f` is their exclusive or in the highest byte of a word: the two complements cancel out,
-- and the other three bytes of the result are 0.
pub f_lem : (buf : List ℕ) → AreBytes buf → f buf ≡ xor_of 0 buf * 2 ^ 24
unfolding f
f_lem buf h =
    let (flipped, small) = xor_bytes-not32 buf 0 h (omega arith) in
    let back : not32 (not32 (xor_of 0 buf)) ≡ xor_of 0 buf = omega (arith, small) in
    rw (flipped, back) (swap_bytes_byte (xor_of 0 buf) small)
