-- ===== src/Setrlimit.antt =====
-- c/setrlimit/main.c: reads the limits of open files, sets them and reads them again.
pub mod Laws
mod Tests
use study_tips.Base.{ℕ, Option, none, some, List, [], ◌∷◌}
use study_tips.Base.Int.{ℤ, pos}

-- `struct rlimit`
pub record Rlimit : Type 0 where
  pub rlim_cur : ℕ
  pub rlim_max : ℕ

-- The kernel, with the state that it keeps of a process. `none` is the -1 of a call that fails.
pub record Kernel : Type 1 where
  pub State : Type 0
  pub getrlimit : State → Option Rlimit
  pub setrlimit : State → Rlimit → Option State

-- What a run leaves: the limits that it has printed, what it returns, and the kernel's state.
pub record Result (k : Kernel) : Type 0 where
  pub printed : List Rlimit
  pub code : ℤ
  pub state : k.State

abbrev pub wanted : Rlimit
wanted = record { rlim_cur = 7024; rlim_max = 65535 }

module _ (k : Kernel) where
  abbrev pub result : List Rlimit → ℤ → k.State → Result k
  result printed code state = record { printed = printed; code = code; state = state }

  -- The last `getrlimit`.
  pub read_again : Rlimit → k.State → Result k
  read_again before s = elim (k.getrlimit s) [
    | none ↦ result (before ∷ []) (pos 1) s
    | some after ↦ result (before ∷ after ∷ []) (pos 0) s
  ]

  pub set_limits : Rlimit → k.State → Result k
  set_limits before s = elim (k.setrlimit s wanted) [
    | none ↦ result (before ∷ []) (pos 1) s
    | some s' ↦ read_again before s'
  ]

  pub main : k.State → Result k
  main s = elim (k.getrlimit s) [ none ↦ result [] (pos 1) s | some before ↦ set_limits before s ]
