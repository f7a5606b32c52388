-- ===== src/Meta.antt =====
-- c/meta/meta.c: macros that call a handler, that print, that take a macro as an argument, and that
-- make a text of their argument.
mod Tests
use study_tips.Base.{ℕ, List, [], ◌∷◌, ◌++◌}
use study_tips.Base.Decimal.{decimal}

-- What the `printf`s print, with the values in them.
pub data Line : Type 0 where
  hello_meta loaded hello_world will_use_macro macro2 will_use_macro_by_arg macro3 : Line
  will_use_and_pass will_exit : Line
  str_and_int : List ℕ → ℕ → Line
  macro4 : ℕ → Line
  macro5_number : ℕ → Line
  macro5_str : List ℕ → Line
  macro5_str_v2 : List ℕ → Line

-- `ON(load, my_loaded_handler)` defines the handler that `EMIT(load)` calls.
pub data Event : Type 0 where
  load : Event

pub on : List Line → List Line
on handler = handler

pub my_loaded_handler : List Line
my_loaded_handler = loaded ∷ []

pub emit : Event → List Line
unfolding on my_loaded_handler
emit load = on my_loaded_handler

-- A token that stands as an argument of a macro: the name MACRO5, or a number.
pub data Token : Type 0 where
  macro5 : Token
  number : ℕ → Token

abbrev pub expanded : Token → ℕ
expanded macro5 = 123
expanded (number n) = n

-- `# token`: the argument as it is spelled, before any expansion.
pub token_to_str : Token → List ℕ
token_to_str macro5 = b'M' ∷ b'A' ∷ b'C' ∷ b'R' ∷ b'O' ∷ b'5' ∷ []
token_to_str (number n) = decimal n n []

-- The argument is expanded before it is handed on.
pub expan_macro_arg_to_str : Token → List ℕ
unfolding token_to_str
expan_macro_arg_to_str macro_arg = token_to_str (number (expanded macro_arg))

pub macro_call_macro2 : List Line
macro_call_macro2 = will_use_macro ∷ macro2 ∷ []

-- The macros that are handed on as arguments.
pub macro_call_macro3_by_arg : List Line → List Line
macro_call_macro3_by_arg macro_arg = will_use_macro_by_arg ∷ macro_arg

pub macro_call_macro_and_passing_arg : (ℕ → List Line) → ℕ → List Line
macro_call_macro_and_passing_arg macro_arg arg_for_macro =
    will_use_and_pass ∷ macro_arg arg_for_macro

abbrev pub hello : List ℕ
hello =
    b'H' ∷ b'e' ∷ b'l' ∷ b'l' ∷ b'o' ∷ b',' ∷ b' ' ∷ b'w' ∷ b'o' ∷ b'r' ∷ b'l' ∷ b'd' ∷ b'!' ∷ []

pub main : List Line
unfolding emit macro_call_macro2 macro_call_macro3_by_arg macro_call_macro_and_passing_arg
    token_to_str expan_macro_arg_to_str
main =
    hello_meta ∷ emit load
    ++ (hello_world ∷ str_and_int hello 10 ∷ macro_call_macro2
        ++ (macro_call_macro3_by_arg (macro3 ∷ [])
            ++ (macro_call_macro_and_passing_arg (λ value. macro4 value ∷ []) 100
                ++ macro5_number (expanded macro5)
                  ∷ macro5_str (token_to_str macro5)
                  ∷ macro5_str_v2 (expan_macro_arg_to_str macro5)
                  ∷ will_exit
                  ∷ [])))
