-- ===== src/Warning/Tests.antt =====
-- Tests of the model of c/warning/main.c, with a `memcmp` that compares from the last byte on.
use study_tips.Base.{
  ℕ, zero, suc, ◌<◌, ◌≡◌, refl, [], ◌∷◌, arith, true, false, inl, inr, Bool-cases, if◌then◌else◌,
  ◌==◌, dec_lt,
}
use study_tips.Base.Int.{ℤ, pos}
use study_tips.Base.Le.{to_le}
use study_tips.Header.Memory.{Mem, byte}
use study_tips.Warning.{asks, memcmp_int, exits, misplaced, valid, lines, main}
use study_tips.Warning.Laws.{IsMemcmp}

compare : Mem → Mem → ℕ → ℤ
compare x y zero = pos 0
compare x y (suc n) = let before = compare x y n in if byte x n == byte y n then before else pos 1

compare_same : (x y : Mem) (n : ℕ) → compare x y n ≡ pos 0 → (i : ℕ) → i < n → byte x i ≡ byte y i
unfolding compare
compare_same x y zero h i l = absurd (omega arith)
compare_same x y (suc n) h i l = elim (Bool-cases (byte x n == byte y n)) [
  | inr differ ↦ absurd (ground arith)
  | inl same ↦
      let ih = compare_same x y n (ground arith) i in
      elim (dec_lt i n) [
        | yes below ↦ ih below
        | no above ↦ let e : i ≡ n = omega arith in rw e (ground arith)
      ]
]

same_compare : (x y : Mem) (n : ℕ) → ((i : ℕ) → i < n → byte x i ≡ byte y i) → compare x y n ≡ pos 0
unfolding compare
same_compare x y zero s = refl
same_compare x y (suc n) s =
    let ih = same_compare x y n (λ i l. s i (omega arith)) in ground (arith, s n (omega arith))

compare-IsMemcmp : IsMemcmp compare
compare-IsMemcmp = record { zero_same = compare_same; same_zero = same_compare }

prints : main compare ≡ asks ∷ memcmp_int ∷ exits ∷ []
unfolding main lines misplaced valid to_le compare
prints = refl

abbrev near : Mem
near = 0 ∷ 1 ∷ []

abbrev far : Mem
far = 0 ∷ 2 ∷ []

-- They differ in the second byte, so that the misplaced bracket makes them look the same.
told_apart : (misplaced compare near far ≡ false) × (valid compare near far ≡ true)
unfolding misplaced valid compare
told_apart = (refl, refl)
