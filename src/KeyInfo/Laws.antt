-- ===== src/KeyInfo/Laws.antt =====
-- What `f` of c/void/voidptr.c reads is what `main` has stored.
use study_tips.Base.{◌<◌, ◌≡◌, ◌^◌, arith}
use study_tips.Base.Le.{from_le, to_le}
use study_tips.KeyInfo.{KeyInfo, to_bytes, read, as_pointer, f}

-- A struct whose fields fit their types goes through a pointer unchanged.
pub f-as_pointer :
    (k : KeyInfo) → k.kind < 2 ^ 8 → k.len < 2 ^ 16 → k.word < 2 ^ 16 → f (as_pointer k) ≡ k
unfolding f as_pointer to_bytes from_le to_le read
f-as_pointer k h1 h2 h3 = ground arith
