-- ===== src/Header/Checksums/Words.antt =====
-- How the sum of the words of a block changes with the bytes of the memory.
use study_tips.Base.{
  ℕ, zero, suc, ◌+◌, ◌*◌, ◌^◌, ◌≤◌, ◌<◌, ◌≡◌, ◌≢◌, refl, arith, ap, ◌∙◌, some, Option, length,
}
use study_tips.Header.Memory.{
  Mem, byte, IsBytes, IsStored16, stored16, stored16-IsStored16, store16, store16-stored16, htons,
}
use study_tips.Header.Sum.Laws.{words, host_words}

-- A field of two bytes, in network order.
abbrev pub field16 : Mem → ℕ → ℕ
field16 m p = byte m p * 256 + byte m (p + 1)

pub words_ext :
    (m out : Mem) (p size : ℕ)
    → ((j : ℕ) → p ≤ j → j < p + size → byte out j ≡ byte m j)
    → words out p size ≡ words m p size
unfolding words
words_ext m out p zero same = refl
words_ext m out p (suc zero) same = ap (λ (b : ℕ). b * 256) (same p (omega arith) (omega arith))
words_ext m out p (suc (suc size)) same = omega (
  arith,
  same p (omega arith) (omega arith),
  same (p + 1) (omega arith) (omega arith),
  words_ext m out (p + 2) size (λ j a b. same j (omega arith) (omega arith)),
)

pub host_words_ext :
    (m out : Mem) (p size : ℕ)
    → ((j : ℕ) → p ≤ j → j < p + size → byte out j ≡ byte m j)
    → host_words out p size ≡ host_words m p size
unfolding host_words
host_words_ext m out p zero same = refl
host_words_ext m out p (suc zero) same = same p (omega arith) (omega arith)
host_words_ext m out p (suc (suc size)) same = omega (
  arith,
  same p (omega arith) (omega arith),
  same (p + 1) (omega arith) (omega arith),
  host_words_ext m out (p + 2) size (λ j a b. same j (omega arith) (omega arith)),
)

-- A field at an even distance from the start of a block counts as one word of it.
pub words-field16 :
    (m out : Mem) (k p q size : ℕ)
    → p + 2 * k ≡ q
    → q + 1 < p + size
    → ((j : ℕ) → j ≢ q → j ≢ q + 1 → byte out j ≡ byte m j)
    → words out p size + field16 m q ≡ words m p size + field16 out q
unfolding words
words-field16 m out k p q zero e h same = absurd (omega arith)
words-field16 m out k p q (suc zero) e h same = absurd (omega arith)
words-field16 m out zero p q (suc (suc size)) e h same =
    let here : p ≡ q = omega arith in
    omega (
      arith,
      ap (byte m) here,
      ap (byte out) here,
      ap (λ (t : ℕ). byte m (t + 1)) here,
      ap (λ (t : ℕ). byte out (t + 1)) here,
      words_ext m out (p + 2) size (λ j a b. same j (omega arith) (omega arith)),
    )
words-field16 m out (suc k) p q (suc (suc size)) e h same = omega (
  arith,
  same p (omega arith) (omega arith),
  same (p + 1) (omega arith) (omega arith),
  words-field16 m out k (p + 2) q size (omega arith) (omega arith) same,
)

pub words_first : (m : Mem) (p size : ℕ) → 2 ≤ size → byte m p * 256 ≤ words m p size
unfolding words
words_first m p zero h = absurd (omega arith)
words_first m p (suc zero) h = absurd (omega arith)
words_first m p (suc (suc size)) h = omega arith

-- What `store16` of a value in network order leaves.
pub record Writes16 (m : Mem) (p v : ℕ) (call : Option Mem) : Type 0 where
  pub out : Mem
  pub returns : call ≡ some out
  pub same_length : length out ≡ length m
  pub field : field16 out p ≡ v
  pub bytes : IsBytes out
  pub others : (j : ℕ) → j ≢ p → j ≢ p + 1 → byte out j ≡ byte m j

pub store16-Writes16 :
    (m : Mem) (p v : ℕ)
    → IsBytes m
    → p + 1 < length m
    → v < 2 ^ 16
    → Writes16 m p v (store16 m p (htons v))
store16-Writes16 m p v bytes fits small = record {
  out = stored16 m p (htons v);
  returns = store16-stored16 m p (htons v) fits;
  same_length = after.same_length;
  field = omega (arith, after.low, after.high);
  bytes = λ i. ground (arith, bytes i, after.others i, after.low, after.high);
  others = after.others;
}
  where
    after : IsStored16 m p (htons v) (stored16 m p (htons v))
    after = stored16-IsStored16 m p (htons v) fits

-- Two memories that agree at a place still do after the same write to both.
pub Writes16_agree :
    {m n : Mem} {p v : ℕ} {c d : Option Mem} (a : Writes16 m p v c) (b : Writes16 n p v d) (j : ℕ)
    → byte m j ≡ byte n j
    → byte a.out j ≡ byte b.out j
Writes16_agree {p} a b j same = ground (
  arith,
  a.others j,
  b.others j,
  a.field,
  b.field,
  a.bytes p,
  b.bytes p,
  a.bytes (p + 1),
  b.bytes (p + 1),
)

-- The sum of the words of two blocks with the same bytes.
pub words_same :
    (a b : Mem) (p q size : ℕ)
    → ((i : ℕ) → i < size → byte a (p + i) ≡ byte b (q + i))
    → words a p size ≡ words b q size
unfolding words
words_same a b p q zero same = refl
words_same a b p q (suc zero) same =
    ap (λ (t : ℕ). t * 256)
      (ap (byte a) (omega arith) ∙ same 0 (omega arith) ∙ ap (byte b) (omega arith))
words_same a b p q (suc (suc size)) same =
    let first : byte a p ≡ byte b q =
      ap (byte a) (omega arith) ∙ same 0 (omega arith) ∙ ap (byte b) (omega arith) in
    omega (
      arith,
      first,
      same 1 (omega arith),
      words_same a b (p + 2) (q + 2) size (λ i l.
          ap (byte a) (omega arith) ∙ same (i + 2) (omega arith) ∙ ap (byte b) (omega arith)),
    )
