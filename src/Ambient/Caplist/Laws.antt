-- ===== src/Ambient/Caplist/Laws.antt =====
-- What `get_caplist` returns.
use study_tips.Base.{
  ℕ, ◌+◌, ◌-◌, ◌≡◌, refl, ap, arith, Option, none, some, List, [], ◌∷◌, ◌++◌, map, length, set,
  ++_assoc,
}
use study_tips.Base.Int.{ℤ, minus_one}
use study_tips.Ambient.Caplist.{append_cap, grow, get_caplist, tokens}

-- Storing in the last cell of an array.
set_last :
    (caps : List ℤ) (cap : ℤ)
    → set (caps ++ (minus_one ∷ [])) (length caps) cap ≡ caps ++ (cap ∷ [])
set_last [] cap = refl
set_last (c ∷ caps) cap = ap (λ l. c ∷ l) (set_last caps cap)

length-snoc : (xs : List ℤ) (x : ℤ) → length (xs ++ (x ∷ [])) ≡ length xs + 1
length-snoc [] x = refl
length-snoc (y ∷ xs) x = omega (arith, length-snoc xs x)

module _ (atoi : List ℕ → ℤ) where
  grow_lem :
      (toks : List (List ℕ)) (caps : List ℤ) (i : ℕ)
      → i ≡ length caps + 1
      → grow atoi toks i (some (caps ++ (minus_one ∷ [])))
        ≡ some (caps ++ (map atoi toks ++ (minus_one ∷ [])))
  unfolding grow append_cap
  grow_lem [] caps i h = refl
  grow_lem (tok ∷ toks) caps i h =
      let last : i - 1 ≡ length caps = omega arith in
      let next =
        grow_lem toks (caps ++ (atoi tok ∷ [])) (i + 1)
          (omega (arith, length-snoc caps (atoi tok))) in
      rw (last, set_last caps (atoi tok), next) (ap some (++_assoc caps (atoi tok ∷ []) _))

  -- What is in the array for a list of tokens.
  abbrev pub listed : List (List ℕ) → Option (List ℤ)
  listed [] = none
  listed (tok ∷ toks) = some (atoi tok ∷ (map atoi toks ++ (minus_one ∷ [])))

  grow-listed : (toks : List (List ℕ)) → grow atoi toks 1 none ≡ listed toks
  unfolding grow append_cap
  grow-listed [] = refl
  grow-listed (tok ∷ toks) = grow_lem toks (atoi tok ∷ []) 2 refl

  -- `get_caplist` returns NULL if the text has no token, and otherwise the array of the tokens'
  -- numbers, in order, with -1 behind them.
  pub get_caplist_lem : (arg : List ℕ) → get_caplist atoi arg ≡ listed (tokens [] arg)
  unfolding get_caplist
  get_caplist_lem arg = grow-listed (tokens [] arg)
