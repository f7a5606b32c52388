-- ===== src/Aligned/Laws.antt =====
-- What the loops of c/aligned/main.c compute, in either layout.
use study_tips.Base.{
  ℕ, zero, suc, ◌+◌, ◌-◌, ◌*◌, ◌/◌, ◌%◌, ◌^◌, ◌≤◌, ◌<◌, ◌≡◌, ◌⊎◌, refl, ap, ◌∙◌, arith, Option,
  some, length, length-replicate, replicate, dec_lt, leb, if◌then◌else◌,
}
use mathlib.Core.Path.{subst}
use study_tips.Base.Word.{u8, u64}
use study_tips.Header.Memory.{Mem, byte, load-byte, byte-replicate_zero}
use study_tips.Header.Block.Writes.{store-Writes}
use study_tips.Header.Block.Fields.{word, load_le-word, word_ext, store_le-Stored}
use study_tips.Aligned.{Layout, round, rounds, run, Timeval, diff}

-- The fields lie inside the struct and apart from each other.
pub record IsLayout (l : Layout) : Type 0 where
  pub u8_inside : l.u8_at < l.size
  pub u64_inside : l.u64_at + 8 ≤ l.size
  pub apart : (l.u8_at < l.u64_at) ⊎ (l.u64_at + 8 ≤ l.u8_at)

-- The struct as its two fields, and the body of the loop on them.
pub record Pair : Type 0 where
  pub small : ℕ
  pub big : ℕ

abbrev pub step : Pair → Pair
step p = record { small = u8 (p.small + 1); big = u64 (p.big + p.small) }

abbrev pub steps : ℕ → Pair → Pair
steps zero p = p
steps (suc i) p = steps i (step p)

-- An object that holds a pair.
pub record Holds (l : Layout) (p : Pair) (m : Mem) : Type 0 where
  pub size : length m ≡ l.size
  pub small_field : byte m l.u8_at ≡ p.small
  pub big_field : word 8 m l.u64_at ≡ p.big

-- A call that leaves the object with a pair, and every byte outside the fields as it was.
pub record Leaves (l : Layout) (m : Mem) (p : Pair) (call : Option Mem) : Type 0 where
  pub out : Mem
  pub returns : call ≡ some out
  pub holds : Holds l p out
  pub padding :
      (j : ℕ)
      → (j < l.u8_at) ⊎ (l.u8_at < j)
      → (j < l.u64_at) ⊎ (l.u64_at + 8 ≤ j)
      → byte out j ≡ byte m j

module _ (l : Layout) (ok : IsLayout l) where
  round-Leaves : (p : Pair) (m : Mem) → Holds l p m → Leaves l m (step p) (round l m)
  unfolding round
  round-Leaves p m h =
      let read_big = load_le-word 8 m l.u64_at (omega (arith, h.size, ok.u64_inside)) in
      let read_small = load-byte m l.u8_at (omega (arith, h.size, ok.u8_inside)) in
      let sum = u64 (word 8 m l.u64_at + byte m l.u8_at) in
      let s = store_le-Stored 8 m l.u64_at sum (omega (arith, h.size, ok.u64_inside)) in
      let again = load-byte s.out l.u8_at (omega (arith, h.size, s.same_length, ok.u8_inside)) in
      let w =
        store-Writes s.out l.u8_at (byte s.out l.u8_at + 1)
          (omega (arith, h.size, s.same_length, ok.u8_inside)) in
      let kept : byte s.out l.u8_at ≡ byte m l.u8_at = s.others l.u8_at ok.apart in
      let written : byte w.out l.u8_at ≡ u8 (byte s.out l.u8_at + 1) =
        ap (byte w.out) (omega arith) ∙ w.written 0 (omega arith) in
      record {
        out = w.out;
        returns = rw (read_big, read_small, s.returns, again) w.returns;
        holds = record {
          size = omega (arith, w.same_length, s.same_length, h.size);
          small_field = omega (arith, written, kept, h.small_field);
          big_field =
              word_ext 8 s.out w.out l.u64_at (λ j a b. w.others j (ground (arith, ok.apart)))
              ∙ omega (arith, s.field, h.small_field, h.big_field);
        };
        padding = λ j a b. w.others j (ground arith) ∙ s.others j b;
      }

  rounds-Leaves : (i : ℕ) (p : Pair) (m : Mem) → Holds l p m → Leaves l m (steps i p) (rounds l i m)
  unfolding rounds
  rounds-Leaves zero p m h = record { out = m; returns = refl; holds = h; padding = λ j a b. refl }
  rounds-Leaves (suc i) p m h =
      let first = round-Leaves p m h in
      let rest = rounds-Leaves i (step p) first.out first.holds in
      record {
        out = rest.out;
        returns = rw first.returns rest.returns;
        holds = rest.holds;
        padding = λ j a b. rest.padding j a b ∙ first.padding j a b;
      }

-- The sum of the numbers below `n`.
abbrev pub sum_below : ℕ → ℕ
sum_below zero = 0
sum_below (suc n) = sum_below n + n

-- The sum of the low bytes of the numbers below `n`: 32640 for each 256 of them, and the rest.
abbrev pub total : ℕ → ℕ
total n = n / 256 * 32640 + sum_below (n % 256)

total-suc : (n : ℕ) → total (suc n) ≡ total n + n % 256
total-suc n = elim (dec_lt (n % 256) 255) [
  | yes below ↦
      let next : suc n % 256 ≡ suc (n % 256) = omega arith in
      let same : suc n / 256 ≡ n / 256 = omega arith in rw (next, same) (omega arith)
  | no last ↦
      let here : n % 256 ≡ 255 = omega arith in
      let next : suc n % 256 ≡ 0 = omega arith in
      let more : suc n / 256 ≡ n / 256 + 1 = omega arith in
      let all : sum_below 255 ≡ 32385 = refl in rw (here, next, more) (omega (arith, all))
]

sum_below-le : (n bound : ℕ) → n ≤ bound → sum_below n ≤ n * bound
sum_below-le zero bound h = omega arith
sum_below-le (suc n) bound h = omega (arith, sum_below-le n bound)

-- The pair after `n` rounds.
abbrev pub counted : ℕ → Pair
counted n = record { small = n % 256; big = total n }

steps-counted : (i n : ℕ) → n + i < 2 ^ 32 → steps i (counted n) ≡ counted (n + i)
steps-counted zero n h = ap counted (omega arith)
steps-counted (suc i) n h =
    let bound = sum_below-le (n % 256) 256 (omega arith) in
    let grown = total-suc n in
    let once : step (counted n) ≡ counted (suc n) = ground (arith, grown, bound) in
    ap (steps i) once ∙ steps-counted i (suc n) (omega arith) ∙ ap counted (omega arith)

word_zero : (n : ℕ) (m : Mem) (p : ℕ) → ((j : ℕ) → byte m j ≡ 0) → word n m p ≡ 0
unfolding word
word_zero zero m p h = refl
word_zero (suc n) m p h = omega (arith, h p, word_zero n m (p + 1) h)

zeros-Holds : (l : Layout) → Holds l (counted 0) (replicate l.size 0)
zeros-Holds l = record {
  size = length-replicate l.size 0;
  small_field = byte-replicate_zero l.size l.u8_at;
  big_field = word_zero 8 (replicate l.size 0) l.u64_at (byte-replicate_zero l.size);
}

-- In any layout with the fields inside the struct and apart from each other, fewer than 2 ^ 32 rounds
-- access nothing outside the struct, leave the padding at zero, the small field at the rounds modulo
-- 256, and the big one at the sum of the values that the small one has had, with no overflow.
pub run-Leaves :
    (l : Layout)
    → IsLayout l
    → (i : ℕ) → i < 2 ^ 32
    → Leaves l (replicate l.size 0) (counted i) (run l i)
unfolding run
run-Leaves l ok i h =
    let start : Mem = replicate l.size 0 in
    let pair : steps i (counted 0) ≡ counted i =
      steps-counted i 0 (omega arith) ∙ ap counted (omega arith) in
    subst (λ p. Leaves l start p (rounds l i start)) pair
      (rounds-Leaves l ok i (counted 0) start (zeros-Holds l))

abbrev pub micros : Timeval → ℕ
micros t = t.sec * 1000000 + t.usec

-- For times of less than 2 ^ 64 microseconds, `diff` is the microseconds from the start to the end; if
-- the clock has been set back in between, it is as much less than 2 ^ 64.
pub diff-micros :
    (start end : Timeval)
    → micros start < 2 ^ 64
    → micros end < 2 ^ 64
    → diff start end ≡ (
        if leb (micros start) (micros end)
        then micros end - micros start
        else 2 ^ 64 - (micros start - micros end))
unfolding diff
diff-micros start end hs he = ground arith
