-- ===== src/Base/Decimal.antt =====
-- Numbers as `printf` writes them.
use Prim.Native.Nat.{ℕ, zero, suc, ◌+◌, ◌/◌, ◌%◌}
use mathlib.Core.List.{List, ◌∷◌}
use study_tips.Base.Tests.{ltb, if◌then◌else◌}

-- `%zu` and `%d`: the digits of a number, the last one first put in front of those that are there; the number
-- itself is enough fuel.
unfoldable pub decimal : ℕ → ℕ → List ℕ → List ℕ
decimal zero n digits = (b'0' + n % 10) ∷ digits
decimal (suc fuel) n digits =
    let rest = decimal fuel (n / 10) ((b'0' + n % 10) ∷ digits) in
    if ltb n 10 then (b'0' + n) ∷ digits else rest
