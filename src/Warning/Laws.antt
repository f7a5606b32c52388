-- ===== src/Warning/Laws.antt =====
-- What the two comparisons of c/warning/main.c test.
use study_tips.Base.{
  ℕ, zero, suc, ◌<◌, ◌≡◌, ◌≢◌, ◌↔◌, refl, ap, ap₂, Bool-cases, inl, inr, [], ◌∷◌, arith, true, not,
  length,
}
use study_tips.Base.Int.{ℤ, pos, negsuc, eqb}
use study_tips.Header.Memory.{Mem, byte}
use study_tips.Warning.{has_size, misplaced, valid}

-- As the C standard says, `memcmp` is 0 just if the first `n` bytes are the same.
pub record IsMemcmp (memcmp : Mem → Mem → ℕ → ℤ) : Type 0 where
  pub zero_same : (x y : Mem) (n : ℕ) → memcmp x y n ≡ pos 0 → (i : ℕ) → i < n → byte x i ≡ byte y i
  pub same_zero :
      (x y : Mem) (n : ℕ) → ((i : ℕ) → i < n → byte x i ≡ byte y i) → memcmp x y n ≡ pos 0

eqb_pos : (z : ℤ) → eqb z (pos 0) ≡ true → z ≡ pos 0
eqb_pos (pos n) h = ground arith
eqb_pos (negsuc n) h = cc

-- A test on the answer tells objects apart just if their first bytes are not the same.
tests_same :
    (memcmp : Mem → Mem → ℕ → ℤ)
    → IsMemcmp memcmp
    → (x y : Mem) (n : ℕ)
    → (not (eqb (memcmp x y n) (pos 0)) ≡ true) ↔ ¬ ((i : ℕ) → i < n → byte x i ≡ byte y i)
tests_same memcmp c x y n = (
  λ h s. ground (arith, c.same_zero x y n s),
  λ h. elim (Bool-cases (eqb (memcmp x y n) (pos 0))) [
    | inl same ↦ absurd (h (c.zero_same x y n (eqb_pos (memcmp x y n) same)))
    | inr differ ↦ ap not differ
  ],
)

-- Objects of one size that have the same bytes are the same.
bytes_same :
    (x y : Mem) → length x ≡ length y → ((i : ℕ) → i < length x → byte x i ≡ byte y i) → x ≡ y
bytes_same [] [] h s = refl
bytes_same [] (b ∷ y) h s = absurd (omega arith)
bytes_same (a ∷ x) [] h s = absurd (omega arith)
bytes_same (a ∷ x) (b ∷ y) h s =
    ap₂ (◌∷◌) (s 0 (omega arith)) (bytes_same x y (omega arith) (λ i k. s (suc i) (omega arith)))

module _ (memcmp : Mem → Mem → ℕ → ℤ) (c : IsMemcmp memcmp) where
  -- On objects of one size that is not 0, the test with the bracket at the wrong place is true just if
  -- the first bytes are not the same, and the other just if the objects are not.
  pub main_tests :
      (x y : Mem)
      → length x ≡ length y
      → 0 < length x
      → ((misplaced memcmp x y ≡ true) ↔ (byte x 0 ≢ byte y 0))
        × ((valid memcmp x y ≡ true) ↔ (x ≢ y))
  unfolding misplaced valid
  main_tests x y same filled =
      let one : has_size x ≡ 1 = ground arith in
      let (told1, tells1) = tests_same memcmp c x y (has_size x) in
      let (told, tells) = tests_same memcmp c x y (length x) in
      (
        (
          λ h e. told1 h (elim [ zero ↦ λ l. e | suc i ↦ λ l. absurd (omega (arith, one)) ]),
          λ h. tells1 (λ s. h (s 0 (omega (arith, one)))),
        ),
        (λ h e. told h (λ i l. ap (λ z. byte z i) e), λ h. tells (λ s. h (bytes_same x y same s))),
      )
