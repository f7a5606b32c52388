-- ===== src/Inline/Laws.antt =====
-- Where the functions of c/inline/inline.c overflow.
use study_tips.Base.{ℕ, ◌+◌, ◌*◌, ◌^◌, ◌<◌, ◌≡◌, arith, none, some, ltb, if◌then◌else◌}
use study_tips.Base.Int.{pos, negsuc}
use study_tips.Inline.{foo, usefoo}

-- For an int that is `n` or more, `usefoo` returns twice the int and 1 more, if that is an int.
pub usefoo-pos :
    (n : ℕ)
    → n < 2 ^ 31
    → usefoo (pos n) ≡ (if ltb n (2 ^ 30) then some (pos (2 * n + 1)) else none)
unfolding usefoo foo
usefoo-pos n h = ground arith

-- The int is -(n + 1).
pub usefoo-negsuc :
    (n : ℕ)
    → n < 2 ^ 31
    → usefoo (negsuc n) ≡ (if ltb n (2 ^ 30) then some (negsuc (2 * n)) else none)
unfolding usefoo foo
usefoo-negsuc n h = ground arith
