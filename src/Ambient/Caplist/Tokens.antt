-- ===== src/Ambient/Caplist/Tokens.antt =====
-- The cut of a text at its commas, which `get_caplist` of c/ambient/main.c leaves to `strtok`.
use study_tips.Base.{ℕ, ◌≡◌, ◌≢◌, refl, sym, ap, ◌∙◌, arith, ++_assoc, List, [], ◌∷◌, ◌++◌}
use study_tips.Base.Int.{ℤ}
use study_tips.Ambient.Caplist.{comma, put_token, tokens, get_caplist}
use study_tips.Ambient.Caplist.Laws.{listed, get_caplist_lem}

abbrev pub HasNoComma : List ℕ → Type 0
HasNoComma [] = Unit
HasNoComma (c ∷ cs) = (c ≢ comma) × HasNoComma cs

abbrev pub AreTokens : List (List ℕ) → Type 0
AreTokens [] = Unit
AreTokens (t ∷ ts) = (t ≢ []) × HasNoComma t × AreTokens ts

-- Texts put behind each other, with a comma between them.
abbrev pub joined : List (List ℕ) → List ℕ
joined [] = []
joined (t ∷ []) = t
joined (t ∷ (u ∷ ts)) = t ++ (comma ∷ joined (u ∷ ts))

nil-++ : (xs : List ℕ) → xs ++ [] ≡ xs
nil-++ [] = refl
nil-++ (x ∷ xs) = ap (λ l. x ∷ l) (nil-++ xs)

-- Letters that are not a comma go to the token that is being read.
tokens_letters :
    (t acc rest : List ℕ) → HasNoComma t → tokens acc (t ++ rest) ≡ tokens (acc ++ t) rest
unfolding tokens
tokens_letters [] acc rest h = ap (λ a. tokens a rest) (sym (nil-++ acc))
tokens_letters (c ∷ t) acc rest (hc, h) =
    let next = tokens_letters t (acc ++ (c ∷ [])) rest h in
    let same = ap (λ a. tokens a rest) (++_assoc acc (c ∷ []) t) in ground (arith, next ∙ same)

put_token_lem : (t : List ℕ) (ts : List (List ℕ)) → t ≢ [] → put_token t ts ≡ t ∷ ts
put_token_lem [] ts h = absurd (h refl)
put_token_lem (c ∷ t) ts h = refl

tokens-joined : (ts : List (List ℕ)) → AreTokens ts → tokens [] (joined ts) ≡ ts
unfolding tokens
tokens-joined [] h = refl
tokens-joined (t ∷ []) (full, letters, h) =
    ap (λ text. tokens [] text) (sym (nil-++ t))
    ∙ tokens_letters t [] [] letters
    ∙ put_token_lem t [] full
tokens-joined (t ∷ (u ∷ ts)) (full, letters, h) =
    tokens_letters t [] (comma ∷ joined (u ∷ ts)) letters
    ∙ put_token_lem t (tokens [] (joined (u ∷ ts))) full
    ∙ ap (λ l. t ∷ l) (tokens-joined (u ∷ ts) h)

-- From texts that are not empty and have no comma, put behind each other with commas between them,
-- the cut at the commas gives back the texts, and `get_caplist` an array of their numbers in order, with
-- -1 behind them.
pub get_caplist-joined :
    (atoi : List ℕ → ℤ) (ts : List (List ℕ))
    → AreTokens ts
    → (tokens [] (joined ts) ≡ ts) × (get_caplist atoi (joined ts) ≡ listed atoi ts)
get_caplist-joined atoi ts h =
    (tokens-joined ts h, get_caplist_lem atoi (joined ts) ∙ ap (listed atoi) (tokens-joined ts h))
