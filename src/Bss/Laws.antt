-- ===== src/Bss/Laws.antt =====
-- What c/bss/main.c does to its arrays.
use study_tips.Base.{
  ℕ, zero, suc, ◌+◌, ◌*◌, ◌%◌, ◌^◌, ◌≤◌, ◌<◌, ◌≡◌, refl, ap, arith, Bool, true, ◌&&◌, some, List,
  [], ◌∷◌, length, get_or, set, drop, if◌then◌else◌, ltb, leb, ◌==◌, Bool-cases, inl, inr,
}
use study_tips.Base.Int.{ℤ}
use study_tips.Base.Word.{u8}
use study_tips.Header.Memory.{Mem, byte, IsBytes, load-byte}
use study_tips.Os.{Run, exit, fault, running, ◌▸◌, exits}
use study_tips.Bss.{Call, memset, touch, to_unsigned, buffer_size, rounds, main}

set-same : (m : Mem) (i : ℕ) → IsBytes m → set m i (u8 (byte m i)) ≡ m
set-same [] i h = refl
set-same (x ∷ m) zero h = ap (λ y. y ∷ m) (omega (arith, h 0))
set-same (x ∷ m) (suc i) h = ap (λ r. x ∷ r) (set-same m i (λ j. h (suc j)))

-- The loop that touches an array leaves it as it is.
touch-same :
    (m : Mem)
    → IsBytes m
    → length m < 2 ^ 32
    → (fuel i : ℕ) → i ≤ length m
    → length m < i + fuel
    → touch fuel i m ≡ some m
unfolding touch
touch-same m bytes small zero i h1 h2 = absurd (omega arith)
touch-same m bytes small (suc fuel) i h1 h2 = elim (Bool-cases (ltb i (length m))) [
  | inr done ↦ ground (arith, done)
  | inl more ↦
      let inside : i < length m = ground (arith, more) in
      let next : (i + 1) % 2 ^ 32 ≡ i + 1 = omega arith in
      let ih = touch-same m bytes small fuel (i + 1) (omega arith) (omega arith) in
      rw (more, load-byte m i inside, set-same m i bytes, next) ih
]

-- The sizes of the arrays that a run clears.
abbrev pub cleared : Run Call → List ℕ
cleared (exit c) = []
cleared fault = []
cleared running = []
cleared (memset n ▸ r) = n ∷ cleared r

abbrev pub take_fitting : ℕ → List ℕ → List ℕ
take_fitting room [] = []
take_fitting room (n ∷ ns) = let rest = take_fitting room ns in if leb n room then n ∷ rest else []

abbrev pub all_fit : ℕ → List ℕ → Bool
all_fit room [] = true
all_fit room (n ∷ ns) = leb n room && all_fit room ns

module _ (atoi : List ℕ → ℤ) where
  -- What the lines ask for: up to the first that starts with a q, the number of each in MB, modulo 4096.
  abbrev pub wanted : List (List ℕ) → List ℕ
  wanted [] = []
  wanted (line ∷ lines) =
      let rest = wanted lines in
      if get_or line 0 0 == b'q' then [] else to_unsigned (atoi line) % 4096 * 2 ^ 20 ∷ rest

  buffer_size-megabytes : (size : ℕ) → buffer_size size ≡ size % 4096 * 2 ^ 20
  buffer_size-megabytes size = omega arith

  rounds_lem :
      (room : ℕ) (lines : List (List ℕ))
      → (cleared (rounds atoi room lines) ≡ take_fitting room (wanted lines))
        × (exits (rounds atoi room lines) ≡ all_fit room (wanted lines))
  unfolding rounds
  rounds_lem room [] = (refl, refl)
  rounds_lem room (line ∷ lines) =
      let same = buffer_size-megabytes (to_unsigned (atoi line)) in
      let (ih1, ih2) = rounds_lem room lines in ground (arith, same, ih1, ih2)

  -- `main` of arrays of bytes, with less than 2 ^ 32 each.
  pub record Touched (room : ℕ) (in_data in_bss : Mem) (lines : List (List ℕ)) : Type 0 where
    pub run : Run Call
    pub returns : main atoi room in_data in_bss lines ≡ some (in_data, in_bss, run)
    pub clears : cleared run ≡ take_fitting room (wanted (drop 2 lines))
    pub ends : exits run ≡ all_fit room (wanted (drop 2 lines))

  -- For arrays of bytes shorter than 2 ^ 32, `main` finishes both loops and leaves both arrays as they
  -- are. Then each line behind the second, up to the first that starts with a q, asks for an array of
  -- its number of megabytes modulo 4096: the arrays are cleared in turn as long as the stack has room,
  -- and the program ends just if it has room for all of them.
  pub main-Touched :
      (room : ℕ) (in_data in_bss : Mem)
      → IsBytes in_data
      → length in_data < 2 ^ 32
      → IsBytes in_bss
      → length in_bss < 2 ^ 32
      → (lines : List (List ℕ)) → Touched room in_data in_bss lines
  unfolding main
  main-Touched room in_data in_bss b1 s1 b2 s2 lines =
      let (all, end) = rounds_lem room (drop 2 lines) in
      record {
        run = rounds atoi room (drop 2 lines);
        returns = rw (
          touch-same in_data b1 s1 (length in_data + 1) 0 (omega arith) (omega arith),
          touch-same in_bss b2 s2 (length in_bss + 1) 0 (omega arith) (omega arith),
        );
        clears = all;
        ends = end;
      }
