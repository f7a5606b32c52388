-- ===== src/Macro.antt =====
-- c/macro/macro.c: macros that check a condition, print a line and return.
pub mod Laws
mod Tests
use study_tips.Base.{ℕ, Bool, true, false, not, List, [], ◌∷◌, ◌++◌, if◌then◌else◌, ◌==◌}

-- The functions of the file, for `__func__`.
pub data Func : Type 0 where
  void_has_no_print void_has_print void_has_print_c99 : Func
  bool_has_no_print bool_has_print bool_has_print_c99 : Func

-- What is printed. The texts of the checks are with "c99" or without, and with the two arguments
-- `__func__` and `b` or without.
pub data Line : Type 0 where
  additional : Bool → Func → ℕ → Line
  no_additional : Bool → Line
  hello_world return_code_test will_exit : Line

-- Where a statement leaves a function: what it has printed, and the value if it has returned.
pub data Flow {ℓ} (A : Type ℓ) : Type ℓ where
  goes_on : List Line → Flow A
  returns : List Line → A → Flow A

-- The empty `rc` of the functions that return nothing.
pub data Void : Type 0 where
  void : Void

-- One use of a macro.
pub record Check {ℓ} (A : Type ℓ) : Type ℓ where
  pub expr : Bool
  pub rc : A
  pub text : Line

-- `__builtin_expect(!!(x), 1)` and `__builtin_expect(!!(x), 0)`
abbrev pub likely : Bool → Bool
likely x = not (not x)

abbrev pub unlikely : Bool → Bool
unlikely x = not (not x)

module _ {ℓ} {A : Type ℓ} where
  -- `PARA_CHECK_RETRUN_GNU` and `PARA_CHECK_RETRUN_C99`
  pub para_check_return : Check A → Flow A
  para_check_return c = returns (if c.expr then c.text ∷ [] else []) c.rc

  -- One statement behind another.
  pub next : Flow A → Flow A → Flow A
  next (returns out a) rest = returns out a
  next (goes_on out) (goes_on more) = goes_on (out ++ more)
  next (goes_on out) (returns more a) = returns (out ++ more) a

  -- The body of a function, which is one check after the other.
  pub run : List (Check A) → Flow A
  run [] = goes_on []
  run (c ∷ cs) = next (para_check_return c) (run cs)

  abbrev pub printed : Flow A → List Line
  printed (goes_on out) = out
  printed (returns out a) = out

-- `PARA_CHECK_NORETRUN_GNU` and `PARA_CHECK_NORETRUN_C99`
abbrev pub no_return : Bool → Line → Check Void
no_return expr text = record { expr = expr; rc = void; text = text }

abbrev pub with_return : Bool → Bool → Line → Check Bool
with_return expr rc text = record { expr = expr; rc = rc; text = text }

-- The checks of each function, where `b` is 0.
abbrev b : ℕ
b = 0

abbrev pub f_void_has_no_print_para_ret : List (Check Void)
f_void_has_no_print_para_ret =
    no_return (b == 1) (additional false void_has_no_print b)
    ∷ no_return (b == 1) (no_additional false)
    ∷ no_return (likely (b == 1)) (additional false void_has_no_print b)
    ∷ no_return (unlikely (b == 1)) (no_additional false)
    ∷ no_return (b == 1) (additional true void_has_no_print b)
    ∷ no_return (b == 1) (no_additional true)
    ∷ no_return (likely (b == 1)) (additional true void_has_no_print b)
    ∷ no_return (unlikely (b == 1)) (no_additional true)
    ∷ no_return (b == 0) (no_additional false)
    ∷ []

abbrev pub f_void_has_print_para_ret : List (Check Void)
f_void_has_print_para_ret = no_return (b == 0) (additional false void_has_print b) ∷ []

abbrev pub f_void_has_print_para_ret_c99 : List (Check Void)
f_void_has_print_para_ret_c99 = no_return (b == 0) (additional true void_has_print_c99 b) ∷ []

abbrev pub f_bool_has_no_print_para_ret : List (Check Bool)
f_bool_has_no_print_para_ret =
    with_return (b == 1) true (additional false bool_has_no_print b)
    ∷ with_return (b == 1) false (no_additional false)
    ∷ with_return (b == 1) true (additional true bool_has_no_print b)
    ∷ with_return (b == 1) false (no_additional true)
    ∷ with_return (b == 0) false (no_additional false)
    ∷ []

abbrev pub f_bool_has_print_para_ret : List (Check Bool)
f_bool_has_print_para_ret = with_return (b == 0) true (additional false bool_has_print b) ∷ []

abbrev pub f_bool_has_print_para_ret_c99 : List (Check Bool)
f_bool_has_print_para_ret_c99 =
    with_return (b == 0) true (additional true bool_has_print_c99 b) ∷ []

-- What `main` prints; it returns 0.
pub main : List Line × ℕ
main = (
  hello_world ∷ printed (run f_void_has_no_print_para_ret)
      ++ printed (run f_void_has_print_para_ret)
      ++ printed (run f_void_has_print_para_ret_c99)
      ++ return_code_test ∷ printed (run f_bool_has_no_print_para_ret)
      ++ printed (run f_bool_has_print_para_ret)
      ++ printed (run f_bool_has_print_para_ret_c99)
      ++ will_exit ∷ [],
  0,
)
