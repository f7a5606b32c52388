-- ===== src/Base/Bits.antt =====
-- The bit operations at the masks that the programs use, as arithmetic.
use Prim.Native.Nat.{
  ℕ, zero, suc, ◌+◌, ◌-◌, ◌*◌, ◌/◌, ◌%◌, ◌^◌, ◌≤◌, ◌<◌, min, max, bit_and, bit_or, bit_xor, differ,
  digits, bit_and-bitwise, bit_or-bitwise, bit_xor-bitwise,
}
use mathlib.Core.Path.{◌≡◌, refl, sym, ap, ◌∙◌}
use native.Mathlib.Nat.{pow-suc, one-le-pow, div-add-mod, div-div-eq-div-mul}
use native.Mathlib.Omega.{arith}

-- Induction from a number to its half, as `>> 1` goes.
module _ {ℓ} (P : ℕ → Type ℓ) (base : P 0) (next : (n : ℕ) → P (suc n / 2) → P (suc n)) where
  halving_to : (bound n : ℕ) → n ≤ bound → P n
  halving_to bound zero h = base
  halving_to zero (suc n) h = absurd (omega arith)
  halving_to (suc bound) (suc n) h = next n (halving_to bound (suc n / 2) (omega arith))

  pub halving : (n : ℕ) → P n
  halving n = halving_to n n (omega arith)

-- Fuel beyond the first operand is not used by the recursion on digits.
spare_fuel :
    (z : ℕ → ℕ) (f : ℕ → ℕ → ℕ) (more a b : ℕ) → a ≤ more → digits z f more a b ≡ digits z f a a b
spare_fuel z f more a = go more more a (omega arith)
  where
    go : (top more a : ℕ) → more ≤ top → (b : ℕ) → a ≤ more → digits z f more a b ≡ digits z f a a b
    go top zero zero t b h = refl
    go top zero (suc a) t b h = absurd (omega arith)
    go top (suc more) zero t b h = refl
    go zero (suc more) (suc a) t b h = absurd (omega arith)
    go (suc top) (suc more) (suc a) t b h =
        let left = go top more (suc a / 2) (omega arith) (b / 2) (omega arith) in
        let right = go top a (suc a / 2) (omega arith) (b / 2) (omega arith) in
        ap (λ (r : ℕ). r * 2 + f (suc a % 2) (b % 2)) (left ∙ sym right)

pub bit_and_digit : (a b : ℕ) → bit_and a b ≡ bit_and (a / 2) (b / 2) * 2 + min (a % 2) (b % 2)
bit_and_digit zero b = omega (arith, bit_and-bitwise 0 b, bit_and-bitwise 0 (b / 2))
bit_and_digit (suc a) b = omega (
  arith,
  bit_and-bitwise (suc a) b,
  bit_and-bitwise (suc a / 2) (b / 2),
  spare_fuel (λ y. 0) min a (suc a / 2) (b / 2) (omega arith),
)

pub bit_or_digit : (a b : ℕ) → bit_or a b ≡ bit_or (a / 2) (b / 2) * 2 + max (a % 2) (b % 2)
bit_or_digit zero b = omega (arith, bit_or-bitwise 0 b, bit_or-bitwise 0 (b / 2))
bit_or_digit (suc a) b = omega (
  arith,
  bit_or-bitwise (suc a) b,
  bit_or-bitwise (suc a / 2) (b / 2),
  spare_fuel (λ y. y) max a (suc a / 2) (b / 2) (omega arith),
)

differ_lem : (x y : ℕ) → x < 2 → y < 2 → differ x y ≡ (x + y) % 2
differ_lem zero y hx hy = omega arith
differ_lem (suc zero) zero hx hy = refl
differ_lem (suc zero) (suc zero) hx hy = refl
differ_lem (suc zero) (suc (suc y)) hx hy = absurd (omega arith)
differ_lem (suc (suc x)) y hx hy = absurd (omega arith)

pub bit_xor_digit : (a b : ℕ) → bit_xor a b ≡ bit_xor (a / 2) (b / 2) * 2 + (a % 2 + b % 2) % 2
bit_xor_digit zero b = omega (arith, bit_xor-bitwise 0 b, bit_xor-bitwise 0 (b / 2))
bit_xor_digit (suc a) b = omega (
  arith,
  bit_xor-bitwise (suc a) b,
  bit_xor-bitwise (suc a / 2) (b / 2),
  spare_fuel (λ y. y) differ a (suc a / 2) (b / 2) (omega arith),
  differ_lem (suc a % 2) (b % 2) (omega arith) (omega arith),
)

bit_and-zero : (a : ℕ) → bit_and a 0 ≡ 0
bit_and-zero =
    halving (λ a. bit_and a 0 ≡ 0) (bit_and-bitwise 0 0)
      (λ n ih. omega (arith, bit_and_digit (suc n) 0))

pub bit_or-zero : (a : ℕ) → bit_or a 0 ≡ a
bit_or-zero =
    halving (λ a. bit_or a 0 ≡ a) (bit_or-bitwise 0 0)
      (λ n ih. omega (arith, bit_or_digit (suc n) 0))

-- The lowest digit of a remainder, and the other digits.
mod_split : (a b : ℕ) → a % (2 * b) ≡ a / 2 % b * 2 + a % 2
mod_split a b =
    let q : a / 2 / b ≡ a / (2 * b) = div-div-eq-div-mul a 2 b in
    omega (arith, div-add-mod a (2 * b), div-add-mod (a / 2) b, ap (λ (t : ℕ). b * t) q)

pub two_pow-suc : (k : ℕ) → 2 ^ suc k ≡ 2 * 2 ^ k
two_pow-suc k = omega (arith, pow-suc 2 k)

-- A mask of ones below bit `k` leaves the remainder by `2 ^ k`.
pub bit_and_low : (k a : ℕ) → bit_and a (2 ^ k - 1) ≡ a % 2 ^ k
bit_and_low zero a = omega (arith, bit_and-zero a)
bit_and_low (suc k) a =
    rw (two_pow-suc k, mod_split a (2 ^ k), ← bit_and_low k (a / 2))
      (omega (
        arith,
        one-le-pow k 2,
        bit_and_digit a (2 * 2 ^ k - 1),
        ap (λ (m : ℕ). bit_and (a / 2) m) half_mask,
      ))
  where
    half_mask : (2 * 2 ^ k - 1) / 2 ≡ 2 ^ k - 1
    half_mask = omega (arith, one-le-pow k 2)

-- A mask of the one bit `k` leaves that bit where it stands.
pub bit_and_one_bit : (k a : ℕ) → bit_and a (2 ^ k) ≡ a / 2 ^ k % 2 * 2 ^ k
bit_and_one_bit zero a = omega (arith, bit_and_digit a 1, bit_and-zero (a / 2))
bit_and_one_bit (suc k) a =
    rw (two_pow-suc k, ← div-div-eq-div-mul a 2 (2 ^ k))
      (omega (
        arith,
        bit_and_digit a (2 * 2 ^ k),
        bit_and_one_bit k (a / 2),
        ap (λ (m : ℕ). bit_and (a / 2) m) half,
      ))
  where
    half : 2 * 2 ^ k / 2 ≡ 2 ^ k
    half = omega arith

-- A value below `2 ^ k` fills the zeros of a multiple of `2 ^ k`.
pub bit_or_low : (k q r : ℕ) → r < 2 ^ k → bit_or (q * 2 ^ k) r ≡ q * 2 ^ k + r
bit_or_low zero q r h = ground (arith, bit_or-zero q)
bit_or_low (suc k) q r h =
    let bound : r / 2 < 2 ^ k = omega (arith, two_pow-suc k) in
    rw (two_pow-suc k) (
      omega (
        arith,
        bit_or_digit (q * (2 * 2 ^ k)) r,
        bit_or_low k q (r / 2) bound,
        ap (λ (m : ℕ). bit_or m (r / 2)) half,
      ))
  where
    half : q * (2 * 2 ^ k) / 2 ≡ q * 2 ^ k
    half = omega arith
