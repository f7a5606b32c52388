-- ===== src/Os/Defs.antt =====
-- Runs, and the descriptors that a run leaves open.
use study_tips.Base.{◌≡◌, Bool, true, false, Option, none, some, List, [], ◌∷◌, if◌then◌else◌}
use study_tips.Base.Int.{ℤ, eqb}

-- `fault` is a run into behaviour that C leaves undefined, `running` one that is still going on when
-- the answers given to the model end.
infixr 6 ◌▸◌
pub data Run (E : Type 0) : Type 0 where
  exit : ℤ → Run E
  fault : Run E
  running : Run E
  ◌▸◌ : E → Run E → Run E

-- The calls that open and close a descriptor.
pub record Descriptors (E : Type 0) : Type 0 where
  pub opened : E → Option ℤ
  pub closed : E → Option ℤ

abbrev pub without : ℤ → List ℤ → List ℤ
without fd [] = []
without fd (x ∷ xs) = if eqb fd x then xs else x ∷ without fd xs

abbrev pub after_open : Option ℤ → List ℤ → List ℤ
after_open none fds = fds
after_open (some fd) fds = fd ∷ fds

abbrev pub after_close : Option ℤ → List ℤ → List ℤ
after_close none fds = fds
after_close (some fd) fds = without fd fds

-- The descriptors still open at the end of a run, from those open at its start.
abbrev pub left_open : {E : Type 0} ⦃d : Descriptors E⦄ → List ℤ → Run E → List ℤ
left_open fds (exit c) = fds
left_open fds fault = fds
left_open fds running = fds
left_open ⦃d⦄ fds (e ▸ r) = left_open (after_open (d.opened e) (after_close (d.closed e) fds)) r

-- The status that a run exits with.
abbrev pub status : {E : Type 0} → Run E → Option ℤ
status (exit c) = some c
status fault = none
status running = none
status (e ▸ r) = status r

-- Whether a run comes to an exit.
abbrev pub exits : {E : Type 0} → Run E → Bool
exits (exit c) = true
exits fault = false
exits running = false
exits (e ▸ r) = exits r

-- A run that exits and has closed what it opened.
abbrev pub IsClean : {E : Type 0} ⦃d : Descriptors E⦄ → Run E → Type 0
IsClean r = (exits r ≡ true) × (left_open [] r ≡ [])
