-- ===== src/Stack.antt =====
-- c/stack/main.c: a thread with a big stack for every line that is entered.
pub mod Laws
mod Tests
use study_tips.Base.{ℕ, ◌+◌, List, [], ◌∷◌, if◌then◌else◌}
use study_tips.Base.Int.{ℤ, pos, minus_one, eqb}
use study_tips.Base.Word.{u8}

-- What a run of `main` leaves: the key and the number that each round prints, the threads that it has
-- created, and what it returns.
pub record Result : Type 0 where
  pub shown : List (ℕ × ℕ)
  pub threads : ℕ
  pub code : ℤ

-- `pthread_create calls` is what that call of `pthread_create` returns, counted from 0; a list of keys
-- is the first byte of each line, up to the NULL of `fgets`.
module _ (pthread_create : ℕ → ℤ) where
  -- `while (1)`, with the calls so far and `seq`
  pub loop : List ℕ → (calls seq : ℕ) → Result
  loop [] calls seq = record { shown = []; threads = calls; code = minus_one }
  loop (key ∷ keys) calls seq =
      let rest = loop keys (calls + 1) (u8 (seq + 1)) in
      if eqb (pthread_create calls) (pos 0)
      then record { shown = (key, seq) ∷ rest.shown; threads = rest.threads; code = rest.code }
      else record { shown = (key, seq) ∷ []; threads = calls; code = minus_one }

  pub main : List ℕ → Result
  main keys = loop keys 0 1
