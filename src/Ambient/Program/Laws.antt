-- ===== src/Ambient/Program/Laws.antt =====
-- Whole runs of c/ambient/main.c.
use study_tips.Base.{
  ℕ, ◌+◌, ◌≡◌, refl, arith, Bool-cases, true, some, List, [], ◌∷◌, ◌++◌, map, if◌then◌else◌, inl,
  inr,
}
use study_tips.Base.Int.{ℤ, pos, minus_one, eqb}
use study_tips.Os.{Run, exit, fault, running, ◌▸◌, exits, status}
use study_tips.Ambient.Caplist.{tokens}
use study_tips.Ambient.Caplist.Laws.{listed, get_caplist_lem}
use study_tips.Ambient.Program.{
  Call, execv, ambient_raise, System, or_default, dash_c, default_caplist, set_ambient_cap,
  raise_all, run_with, with_caps, same_text, main,
}

-- The capabilities that a run raises.
abbrev pub raised : Run Call → List ℤ
raised (exit c) = []
raised fault = []
raised running = []
raised (ambient_raise cap rc ▸ r) = cap ∷ raised r
raised (_ ▸ r) = raised r

-- The numbers before the first -1.
abbrev pub upto_end : List ℤ → List ℤ
upto_end [] = []
upto_end (c ∷ cs) = if eqb c minus_one then [] else c ∷ upto_end cs

module _ (sys : System) where
  exits-raise_all :
      (cs : List ℤ) (i : ℕ) (rest : Run Call)
      → exits rest ≡ true
      → exits (raise_all sys i (cs ++ (minus_one ∷ [])) rest) ≡ true
  unfolding raise_all set_ambient_cap
  exits-raise_all [] i rest h = h
  exits-raise_all (c ∷ cs) i rest h = ground (arith, exits-raise_all cs (i + 1) rest h)

  exits-run_with :
      (cs : List ℤ) (command : List (List ℕ))
      → exits (run_with sys (cs ++ (minus_one ∷ [])) command) ≡ true
  unfolding run_with
  exits-run_with cs command = exits-raise_all cs 0 (execv command ▸ exit (pos 0)) refl

  exits-default :
      (command : List (List ℕ)) → exits (run_with sys (default_caplist sys) command) ≡ true
  unfolding default_caplist
  exits-default command =
      exits-run_with (sys.cap_net_raw ∷ sys.cap_net_admin ∷ sys.cap_sys_nice ∷ []) command

  exits-listed :
      (toks : List (List ℕ)) (command : List (List ℕ))
      → exits (run_with sys (or_default (listed sys.atoi toks) (default_caplist sys)) command)
        ≡ true
  exits-listed [] command = exits-default command
  exits-listed (tok ∷ toks) command = exits-run_with (map sys.atoi (tok ∷ toks)) command

  exits-with_caps : (args : List (List ℕ)) → exits (with_caps sys args) ≡ true
  unfolding with_caps
  exits-with_caps [] = refl
  exits-with_caps (caps ∷ []) = refl
  exits-with_caps (caps ∷ program ∷ args) =
      rw (get_caplist_lem sys.atoi caps) (exits-listed (tokens [] caps) (program ∷ args))

  -- Whatever the arguments are and the system answers, `main` does not read a list of capabilities
  -- behind its end, and comes to an exit.
  pub ambient_exits : (args : List (List ℕ)) → exits (main sys args) ≡ true
  unfolding main
  ambient_exits [] = refl
  ambient_exits (first ∷ args) = elim (Bool-cases (same_text first dash_c)) [
    | inl yes_c ↦ rw yes_c (exits-with_caps args)
    | inr no_c ↦ rw no_c (exits-default (first ∷ args))
  ]

  raised-raise_all :
      ((i : ℕ) → sys.on_update i ≡ pos 0)
      → ((i : ℕ) → sys.on_raise i ≡ pos 0)
      → (cs : List ℤ) (i : ℕ) (rest : Run Call) → raised rest ≡ []
      → (raised (raise_all sys i (cs ++ (minus_one ∷ [])) rest) ≡ upto_end cs)
        × (status (raise_all sys i (cs ++ (minus_one ∷ [])) rest) ≡ status rest)
  unfolding raise_all set_ambient_cap
  raised-raise_all hu hr [] i rest h = (h, refl)
  raised-raise_all hu hr (c ∷ cs) i rest h =
      rw (hu i, hr i) (ground (arith, raised-raise_all hu hr cs (i + 1) rest h))

  -- If every call succeeds, then `main` with `-c`, a text with some token and a program raises the
  -- capabilities that the tokens name, in order, up to the first that is -1, and exits with 0 if
  -- `execv` fails.
  pub ambient_raises :
      (caps program tok : List ℕ) (args toks : List (List ℕ))
      → ((i : ℕ) → sys.on_update i ≡ pos 0)
      → ((i : ℕ) → sys.on_raise i ≡ pos 0)
      → tokens [] caps ≡ tok ∷ toks
      → (raised (main sys (dash_c ∷ caps ∷ program ∷ args)) ≡ upto_end (map sys.atoi (tok ∷ toks)))
        × (status (main sys (dash_c ∷ caps ∷ program ∷ args)) ≡ some (pos 0))
  unfolding main with_caps run_with
  ambient_raises caps program tok args toks hu hr e =
      rw (get_caplist_lem sys.atoi caps, e)
        (raised-raise_all hu hr (map sys.atoi (tok ∷ toks)) 0
          (execv (program ∷ args) ▸ exit (pos 0)) refl)
