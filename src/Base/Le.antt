-- ===== src/Base/Le.antt =====
-- Words as their bytes, low byte first.
use Prim.Native.Nat.{ℕ, zero, suc, ◌+◌, ◌*◌, ◌/◌, ◌%◌, ◌^◌}
use mathlib.Core.Path.{◌≡◌, refl, ap}
use mathlib.Core.List.{List, [], ◌∷◌}
use native.Mathlib.Nat.{pow-suc, div-add-mod, div-div-eq-div-mul}
use native.Mathlib.Omega.{arith}
use study_tips.Base.Lists.{length}

-- Bytes as the word that they make, and the first bytes of a word.
unfoldable pub from_le : List ℕ → ℕ
from_le [] = 0
from_le (b ∷ bs) = b + from_le bs * 256

unfoldable pub to_le : ℕ → ℕ → List ℕ
to_le zero w = []
to_le (suc n) w = w % 256 ∷ to_le n (w / 256)

pub length-to_le : (n w : ℕ) → length (to_le n w) ≡ n
unfolding to_le
length-to_le zero w = refl
length-to_le (suc n) w = ap suc (length-to_le n (w / 256))

-- The lowest byte of a remainder, and the other bytes.
mod_split : (a b : ℕ) → a % (256 * b) ≡ a / 256 % b * 256 + a % 256
mod_split a b =
    let q : a / 256 / b ≡ a / (256 * b) = div-div-eq-div-mul a 256 b in
    omega (arith, div-add-mod a (256 * b), div-add-mod (a / 256) b, ap (λ (t : ℕ). b * t) q)

pub from_le-to_le : (n w : ℕ) → from_le (to_le n w) ≡ w % 256 ^ n
unfolding from_le to_le
from_le-to_le zero w = omega arith
from_le-to_le (suc n) w =
    let next : 256 ^ suc n ≡ 256 * 256 ^ n = omega (arith, pow-suc 256 n) in
    rw (next, mod_split w (256 ^ n)) (omega (arith, from_le-to_le n (w / 256)))
