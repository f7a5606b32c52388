-- ===== src/Setrlimit/Laws.antt =====
-- What c/setrlimit/main.c sets, and what it returns.
use study_tips.Base.{◌≡◌, none, some, [], ◌∷◌}
use study_tips.Base.Int.{pos}
use study_tips.Setrlimit.{Rlimit, Kernel, Result, wanted}

-- As getrlimit(2) says, a limit that has been set is the one that is read.
pub record Keeps (k : Kernel) : Type 0 where
  pub reads :
      (s s' : k.State) (l l' : Rlimit)
      → k.setrlimit s l ≡ some s'
      → k.getrlimit s' ≡ some l'
      → l' ≡ l

-- Either all three calls succeed, or the first that fails ends the program.
pub data HasRun (k : Kernel) (s : k.State) : Result k → Type 0 where
  unread : k.getrlimit s ≡ none → HasRun k s (record { printed = []; code = pos 1; state = s })
  refused :
      (before : Rlimit)
      → k.getrlimit s ≡ some before
      → k.setrlimit s wanted ≡ none
      → HasRun k s (record { printed = before ∷ []; code = pos 1; state = s })
  unread_again :
      (before : Rlimit) (s' : k.State)
      → k.getrlimit s ≡ some before
      → k.setrlimit s wanted ≡ some s'
      → k.getrlimit s' ≡ none
      → HasRun k s (record { printed = before ∷ []; code = pos 1; state = s' })
  has_set :
      (before : Rlimit) (s' : k.State)
      → k.getrlimit s ≡ some before
      → k.setrlimit s wanted ≡ some s'
      → k.getrlimit s' ≡ some wanted
      → HasRun k s (record { printed = before ∷ wanted ∷ []; code = pos 0; state = s' })
