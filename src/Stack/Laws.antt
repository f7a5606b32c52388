-- ===== src/Stack/Laws.antt =====
-- How many threads c/stack/main.c creates, and how it ends.
use study_tips.Base.{
  ℕ, zero, suc, ◌+◌, ◌%◌, ◌^◌, ◌≤◌, ◌<◌, ◌≡◌, ◌⊎◌, inl, inr, refl, ap, ◌∙◌, arith, Bool, true,
  false, Bool-cases, some, List, [], ◌∷◌, length, get_elem?, get_or,
}
use study_tips.Base.Int.{ℤ, pos, minus_one, eqb}
use study_tips.Base.Word.{u8}
use study_tips.Stack.{Result, loop, main}

module _ (pthread_create : ℕ → ℤ) where
  abbrev pub succeeds : ℕ → Bool
  succeeds n = eqb (pthread_create n) (pos 0)

  -- A run from the call number `calls` on.
  pub record IsRun (keys : List ℕ) (calls : ℕ) (r : Result) : Type 0 where
    pub code : r.code ≡ minus_one
    pub from : calls ≤ r.threads
    pub most : r.threads ≤ calls + length keys
    pub created : (n : ℕ) → calls ≤ n → n < r.threads → succeeds n ≡ true
    pub ended :
        (calls + length r.shown ≡ r.threads) × (r.threads ≡ calls + length keys)
        ⊎ (calls + length r.shown ≡ r.threads + 1)
          × (succeeds r.threads ≡ false)
          × (r.threads < calls + length keys)
    pub numbers :
        (i : ℕ)
        → i < length r.shown
        → get_elem? r.shown i ≡ some (get_or keys i 0, (calls + 1 + i) % 2 ^ 8)

  loop-IsRun :
      (keys : List ℕ) (calls seq : ℕ)
      → seq ≡ (calls + 1) % 2 ^ 8
      → IsRun keys calls (loop pthread_create keys calls seq)
  unfolding loop
  loop-IsRun [] calls seq h = record {
    code = refl;
    from = omega arith;
    most = omega arith;
    created = λ n a b. absurd (omega arith);
    ended = inl (omega arith, omega arith);
    numbers = λ i l. absurd (omega arith);
  }
  loop-IsRun (key ∷ keys) calls seq h =
      let rest = loop-IsRun keys (calls + 1) (u8 (seq + 1)) (omega arith) in
      elim (Bool-cases (succeeds calls)) [
        | inl made ↦ rw made record {
          code = rest.code;
          from = omega (arith, rest.from);
          most = omega (arith, rest.most);
          created = λ n a b. ground (arith, made, rest.created n);
          ended = ground (arith, rest.ended);
          numbers = elim [
            | zero ↦ λ l. ap (λ n. some (key, n)) (omega arith)
            | suc i ↦ λ l.
                rest.numbers i (omega arith) ∙ ap (λ n. some (get_or keys i 0, n)) (omega arith)
          ];
        }
        | inr failed ↦ rw failed record {
          code = refl;
          from = omega arith;
          most = omega arith;
          created = λ n a b. absurd (omega arith);
          ended = inr (omega arith, failed, omega arith);
          numbers = elim [
            | zero ↦ λ l. ap (λ n. some (key, n)) (omega arith)
            | suc i ↦ λ l. absurd (omega arith)
          ];
        }
      ]

  -- `main` always returns -1. It prints the key of each line with the number of the round, which goes on
  -- from 255 at 0, and it creates a thread for each until a call fails or the lines end; a call that
  -- fails is the last one, and its line has been printed too.
  pub main-IsRun : (keys : List ℕ) → IsRun keys 0 (main pthread_create keys)
  unfolding main
  main-IsRun keys = loop-IsRun keys 0 1 (omega arith)
