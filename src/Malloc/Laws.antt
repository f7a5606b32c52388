-- ===== src/Malloc/Laws.antt =====
-- `main` of c/malloc/main.c writes every byte of the block once, and nothing outside.
use study_tips.Base.{
  ℕ, zero, suc, ◌+◌, ◌-◌, ◌*◌, ◌≤◌, ◌<◌, ◌≡◌, inl, inr, refl, ap, arith, Bool-cases, Option, some,
  ltb, length, length-set, set, ◌∙◌, dec_lt,
}
use study_tips.Base.Word.{u8}
use Prim.Native.Nat.{min}
use study_tips.Header.Memory.{Mem, byte, byte-set_self, byte-set_ne}
use study_tips.Malloc.{State, write_chunk, touch, enough, run, freed}

-- One round of the outer loop.
record IsWritten (size rounds i : ℕ) (s : State) : Type 0 where
  out : State
  returns : write_chunk size rounds i s ≡ some out
  same_length : length out.mem ≡ size
  moved : out.cursor ≡ min (s.cursor + rounds) size
  before : (j : ℕ) → j < s.cursor → byte out.mem j ≡ byte s.mem j
  written : (d : ℕ) → d < rounds → s.cursor + d < size → byte out.mem (s.cursor + d) ≡ u8 (i + d)

-- The bytes that a round writes: the first, and those of the rounds behind it.
first_and_rest :
    (out : Mem) (size rounds i cursor : ℕ)
    → byte out cursor ≡ u8 i
    → ((d : ℕ) → d < rounds → cursor + 1 + d < size → byte out (cursor + 1 + d) ≡ u8 (i + 1 + d))
    → (d : ℕ) → d < suc rounds
    → cursor + d < size
    → byte out (cursor + d) ≡ u8 (i + d)
first_and_rest out size rounds i cursor first rest zero h1 h2 =
    let e : cursor + 0 ≡ cursor = omega arith in rw e (first ∙ omega arith)
first_and_rest out size rounds i cursor first rest (suc d) h1 h2 =
    let e : cursor + suc d ≡ cursor + 1 + d = omega arith in
    rw e (rest d (omega arith) (omega arith) ∙ omega arith)

write_chunk-IsWritten :
    (size rounds i : ℕ) (s : State)
    → length s.mem ≡ size
    → s.cursor ≤ size
    → IsWritten size rounds i s
unfolding write_chunk
write_chunk-IsWritten size zero i s len le = record {
  out = s;
  returns = refl;
  same_length = len;
  moved = omega arith;
  before = λ j h. refl;
  written = λ d h1 h2. absurd (omega arith);
}
write_chunk-IsWritten size (suc rounds) i s len le = elim (Bool-cases (ltb s.cursor size)) [
  | inl more ↦
      let inside : s.cursor < length s.mem = ground arith in
      let m : Mem = set s.mem s.cursor (u8 i) in
      let ih =
        write_chunk-IsWritten size rounds (i + 1) (record { cursor = s.cursor + 1; mem = m })
          (omega (arith, length-set s.mem s.cursor (u8 i))) (ground arith) in
      record {
        out = ih.out;
        returns = ground (arith, ih.returns);
        same_length = ih.same_length;
        moved = omega (arith, ih.moved);
        before = λ j h.
            ih.before j (omega arith)
            ∙ byte-set_ne s.mem s.cursor j (u8 i) (λ e. absurd (omega (arith, e)));
        written =
            first_and_rest ih.out.mem size rounds i s.cursor
              (ih.before s.cursor (omega arith) ∙ byte-set_self s.mem s.cursor (u8 i) inside)
              ih.written;
      }
  | inr end ↦ record {
    out = s;
    returns = rw end;
    same_length = len;
    moved = ground arith;
    before = λ j h. refl;
    written = λ d h1 h2. absurd (ground arith);
  }
]

-- A block that has been written from its start to its end: byte `q * chunk + d`, the one at `d` of a
-- round, holds the low byte of `d`.
pub record IsTouched (size chunk : ℕ) (call : Option State) : Type 0 where
  pub out : State
  pub returns : call ≡ some out
  pub same_length : length out.mem ≡ size
  pub at_end : out.cursor ≡ size
  pub written : (q d : ℕ) → d < chunk → q * chunk + d < size → byte out.mem (q * chunk + d) ≡ u8 d

module _ (size chunk : ℕ) (pos : 0 < chunk) where
  abbrev WrittenBelow : Mem → ℕ → Type 0
  WrittenBelow m rounds =
      (q d : ℕ) → q < rounds → d < chunk → q * chunk + d < size → byte m (q * chunk + d) ≡ u8 d

  place_before : (q round d : ℕ) → q < round → d < chunk → q * chunk + d < round * chunk
  place_before q round d h1 h2 = grind arith

  place_after : (q round d : ℕ) → round < q → round * chunk + chunk ≤ q * chunk + d
  place_after q round d h = grind arith

  next_round : (round : ℕ) → (round + 1) * chunk ≡ round * chunk + chunk
  next_round round = grind arith

  -- A further round of the outer loop.
  written_more :
      (round : ℕ) (s : State)
      → s.cursor ≡ round * chunk
      → WrittenBelow s.mem round
      → (w : IsWritten size chunk 0 s) → WrittenBelow w.out.mem (round + 1)
  written_more round s at below w q d h1 h2 h3 = elim (dec_lt q round) [
    | yes old ↦
        w.before (q * chunk + d) (omega (arith, place_before q round d old h2))
        ∙ below q d old h2 h3
    | no new ↦
        let same : q ≡ round = omega arith in
        let place : q * chunk + d ≡ s.cursor + d = omega (arith, ap (λ (r : ℕ). r * chunk) same) in
        rw place (w.written d h2 (omega arith) ∙ omega arith)
  ]

  touch-IsTouched :
      (fuel round : ℕ) (s : State)
      → length s.mem ≡ size
      → s.cursor ≡ round * chunk
      → s.cursor ≤ size
      → size - s.cursor < fuel
      → WrittenBelow s.mem round
      → IsTouched size chunk (touch fuel size chunk s)
  unfolding touch
  touch-IsTouched zero round s len at le fueled below = absurd (omega arith)
  touch-IsTouched (suc fuel) round s len at le fueled below =
      let w = write_chunk-IsWritten size chunk 0 s len le in
      elim (Bool-cases (ltb w.out.cursor size)) [
        | inl more ↦
            let ih =
              touch-IsTouched fuel (round + 1) w.out w.same_length
                (ground (arith, w.moved, next_round round)) (ground (arith, w.moved))
                (ground (arith, w.moved)) (written_more round s at below w) in
            record {
              out = ih.out;
              returns = rw (w.returns, more) ih.returns;
              same_length = ih.same_length;
              at_end = ih.at_end;
              written = ih.written;
            }
        | inr end ↦ record {
          out = w.out;
          returns = rw (w.returns, end);
          same_length = w.same_length;
          at_end = ground (arith, w.moved);
          written = λ q d h1 h2.
              written_more round s at below w q d (ground (arith, w.moved, place_after q round d))
                h1 h2;
        }
      ]

-- With a block of the size that is asked for and rounds of a byte at least, `main` comes to the end of
-- the block, writes nothing outside, and has written every byte of it: the one at `d` of a round holds
-- the low byte of `d`.
pub run-IsTouched :
    (size chunk : ℕ) (block : Mem)
    → 0 < chunk
    → length block ≡ size
    → (state : Option State) × (run size chunk (some block) ≡ freed state)
      × IsTouched size chunk state
unfolding run
run-IsTouched size chunk block pos len = (
  touch (enough size) size chunk (record { cursor = 0; mem = block }),
  refl,
  touch-IsTouched size chunk pos (enough size) 0 (record { cursor = 0; mem = block }) len
      (omega arith) (omega arith) (omega arith) (λ q d h. absurd (omega arith)),
)
