-- ===== src/DynaArray/Laws.antt =====
-- For which lengths `f` of c/dyna_stack_array/dynaArray.c stays inside its array.
use study_tips.Base.{
  ℕ, ◌+◌, ◌-◌, ◌^◌, ◌≤◌, ◌<◌, ◌≡◌, ◌≢◌, ◌⊎◌, inl, inr, refl, arith, ◌∙◌, none, some, List, length,
  set, get_elem?, length-set, get_elem?-set, get_elem?-set_other, dec_lt,
}
use study_tips.Base.Int.{ℤ, pos}
use study_tips.Base.Word.{u32}
use study_tips.DynaArray.{Ret, put, f}

abbrev pub zeros : Ret
zeros = record { j = pos 0; k = pos 0; l = pos 0; h = pos 0 }

-- The array at the end of `f`: its first cell, its last, its second unless that is the last, and the rest.
pub record IsFilled (a out : List ℤ) : Type 0 where
  pub same_length : length out ≡ length a
  pub first : get_elem? out 0 ≡ some (pos 1)
  pub second : 2 < length a → get_elem? out 1 ≡ some (pos 10)
  pub last : get_elem? out (length a - 1) ≡ some (pos 100)
  pub others : (i : ℕ) → 1 < i → i ≢ length a - 1 → get_elem? out i ≡ get_elem? a i

put-set : (a : List ℤ) (i : ℕ) (v : ℤ) → i < length a → put a i v ≡ some (set a i v)
put-set a i v h = ground arith

filled : List ℤ → List ℤ
filled a = set (set (set a 0 (pos 1)) 1 (pos 10)) (length a - 1) (pos 100)

filled-IsFilled : (a : List ℤ) → 2 ≤ length a → IsFilled a (filled a)
unfolding filled
filled-IsFilled a h =
    let a1 = set a 0 (pos 1) in
    let a2 = set a1 1 (pos 10) in
    let len1 : length a1 ≡ length a = length-set a 0 (pos 1) in
    let len2 : length a2 ≡ length a = length-set a1 1 (pos 10) ∙ len1 in
    let last = length a - 1 in
    record {
      same_length = length-set a2 last (pos 100) ∙ len2;
      first =
          get_elem?-set_other a2 last 0 (pos 100) (omega arith)
          ∙ get_elem?-set_other a1 1 0 (pos 10) (omega arith)
          ∙ get_elem?-set a 0 (pos 1) (omega arith);
      second = λ more.
          get_elem?-set_other a2 last 1 (pos 100) (omega arith)
          ∙ get_elem?-set a1 1 (pos 10) (omega arith);
      last = get_elem?-set a2 last (pos 100) (omega arith);
      others = λ i above off.
          get_elem?-set_other a2 last i (pos 100) (omega arith)
          ∙ get_elem?-set_other a1 1 i (pos 10) (omega arith)
          ∙ get_elem?-set_other a 0 i (pos 1) (omega arith);
    }

f-filled : (a : List ℤ) → 2 ≤ length a → length a < 2 ^ 32 → f a ≡ some (filled a, zeros)
unfolding f filled
f-filled a h small =
    let a1 = set a 0 (pos 1) in
    let a2 = set a1 1 (pos 10) in
    let index : u32 (length a + (2 ^ 32 - 1)) ≡ length a - 1 = omega arith in
    rw
      (
        put-set a 0 (pos 1) (omega arith),
        put-set a1 1 (pos 10) (omega (arith, length-set a 0 (pos 1))),
        index,
        put-set a2 (length a - 1) (pos 100)
            (omega (arith, length-set a 0 (pos 1), length-set a1 1 (pos 10))),
      )
      refl

-- With fewer than two cells `f` stores outside its array; with two or more it does not, sets the first
-- cell to 1, the second to 10, the last to 100, which may be the second, and no other, and returns zeros.
pub f-IsFilled :
    (a : List ℤ)
    → length a < 2 ^ 32
    → ((length a < 2) × (f a ≡ none))
      ⊎ ((2 ≤ length a) × ((out : List ℤ) × (f a ≡ some (out, zeros)) × IsFilled a out))
unfolding f
f-IsFilled a small = elim (dec_lt (length a) 2) [
  | yes short ↦ inl (short, ground (arith, length-set a 0 (pos 1)))
  | no long ↦
      inr (omega arith, (filled a, f-filled a (omega arith) small, filled-IsFilled a (omega arith)))
]
