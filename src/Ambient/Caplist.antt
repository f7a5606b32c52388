-- ===== src/Ambient/Caplist.antt =====
-- `get_caplist` and `default_caplist` of c/ambient/main.c: lists of capabilities that end in -1.
pub mod Laws
pub mod Tokens
use study_tips.Base.{
  ℕ, zero, suc, ◌+◌, ◌-◌, Bool, true, false, Option, none, some, List, [], ◌∷◌, ◌++◌, if◌then◌else◌,
  set, ◌==◌,
}
use study_tips.Base.Int.{ℤ, minus_one}

-- The comma at which `strtok` cuts the text.
abbrev pub comma : ℕ
comma = b','

-- A token that has been read so far, put before the others, unless it is empty.
abbrev pub put_token : List ℕ → List (List ℕ) → List (List ℕ)
put_token [] toks = toks
put_token (c ∷ cs) toks = (c ∷ cs) ∷ toks

-- The tokens of `strtok(dup, ",")` and the calls after it; `tok` is the token read so far.
unfoldable pub tokens : List ℕ → List ℕ → List (List ℕ)
tokens tok [] = put_token tok []
tokens tok (c ∷ cs) =
    let cut = tokens [] cs in
    let on = tokens (tok ++ (c ∷ [])) cs in if c == comma then put_token tok cut else on

-- The array after `realloc`, for `i + 1` cells where it had `i`, and the two stores of a round.
-- A cell that has not been written holds 0 here, and every one is written.
pub append_cap : Option (List ℤ) → ℕ → ℤ → Option (List ℤ)
append_cap none i cap = some (cap ∷ minus_one ∷ [])
append_cap (some list) i cap = some (set list (i - 1) cap ++ (minus_one ∷ []))

module _ (atoi : List ℕ → ℤ) where
  -- The loop on the tokens, with `i` and `list`; memory is not exhausted.
  pub grow : List (List ℕ) → ℕ → Option (List ℤ) → Option (List ℤ)
  grow [] i list = list
  grow (tok ∷ toks) i list = grow toks (i + 1) (append_cap list i (atoi tok))

  -- `none` is NULL.
  pub get_caplist : List ℕ → Option (List ℤ)
  get_caplist arg = grow (tokens [] arg) 1 none
