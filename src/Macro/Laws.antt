-- ===== src/Macro/Laws.antt =====
-- When the macros of c/macro/macro.c do what their names say.
use study_tips.Base.{
  Bool, true, false, List, [], ◌∷◌, ◌≡◌, ◌↔◌, refl, ap, arith, not, if◌then◌else◌,
}
use study_tips.Macro.{Flow, goes_on, returns, Check, para_check_return, next, run}

module _ {ℓ} {A : Type ℓ} where
  -- The checks that are meant: a function returns at the first condition that holds, and only there.
  abbrev pub meant : List (Check A) → Flow A
  meant [] = goes_on []
  meant (c ∷ cs) = let rest = meant cs in if c.expr then returns (c.text ∷ []) c.rc else rest

  abbrev pub first_holds : List (Check A) → Bool
  first_holds [] = true
  first_holds (c ∷ cs) = c.expr

  -- A return with nothing printed.
  is_silent : Flow A → Bool
  is_silent (goes_on out) = false
  is_silent (returns [] a) = true
  is_silent (returns (x ∷ xs) a) = false

  meant-is_silent : (cs : List (Check A)) → is_silent (meant cs) ≡ false
  unfolding is_silent
  meant-is_silent [] = refl
  meant-is_silent (c ∷ cs) = ground (arith, meant-is_silent cs)

  run-is_silent : (c : Check A) (cs : List (Check A)) → is_silent (run (c ∷ cs)) ≡ not c.expr
  unfolding is_silent run next para_check_return
  run-is_silent c cs = ground arith

  first_true : (c : Check A) (cs : List (Check A)) → c.expr ≡ true → run (c ∷ cs) ≡ meant (c ∷ cs)
  unfolding run next para_check_return
  first_true c cs h = ground arith

  -- A function body that is made of the macros does what is meant just if its first condition holds.
  pub run-meant : (cs : List (Check A)) → (run cs ≡ meant cs) ↔ (first_holds cs ≡ true)
  unfolding run
  run-meant [] = (λ e. refl, λ e. refl)
  run-meant (c ∷ cs) = (
    λ e.
        let same = ap is_silent e in
        ground (arith, same, meant-is_silent (c ∷ cs), run-is_silent c cs),
    first_true c cs,
  )
