-- ===== src/Header/Sum/Laws.antt =====
-- What `Checksum` and `csum` compute: sums in ones' complement arithmetic.
use study_tips.Base.{
  ℕ, zero, suc, ◌+◌, ◌-◌, ◌*◌, ◌/◌, ◌%◌, ◌^◌, ◌≤◌, ◌<◌, ◌≡◌, refl, some, arith, Bool, true, ◌&&◌,
  bit_and, ◌==◌, if◌then◌else◌, length,
}
use study_tips.Base.Bits.{bit_and_low, bit_or_low}
use study_tips.Base.Word.{u32, u64}
use study_tips.Base.{none, [], ◌∷◌}
use study_tips.Header.Block.{>>=-none}
use study_tips.Header.Memory.{load, Mem, byte, IsBytes, load-byte}
use study_tips.Header.Sum.{word_at, add_words, fold_carries, enough, checksum, add_host_words, csum}

-- The representative of `n` modulo 65535 that ones' complement arithmetic keeps: 0 only for 0.
unfoldable pub ones : ℕ → ℕ
ones n = if n == 0 then 0 else (n - 1) % 65535 + 1

-- The plain sum of the 16-bit words in `m[p .. p + size)`, high byte first, an odd byte padded.
unfoldable pub words : Mem → ℕ → ℕ → ℕ
words m p zero = 0
words m p (suc zero) = byte m p * 256
words m p (suc (suc size)) = byte m p * 256 + byte m (p + 1) + words m (p + 2) size

-- The same with the low byte first.
unfoldable pub host_words : Mem → ℕ → ℕ → ℕ
host_words m p zero = 0
host_words m p (suc zero) = byte m p
host_words m p (suc (suc size)) = byte m p + byte m (p + 1) * 256 + host_words m (p + 2) size

pub ones-le : (n : ℕ) → ones n ≤ 65535
unfolding ones
ones-le n = ground arith

pub ones-ones-add : (a b : ℕ) → ones (ones a + b) ≡ ones (a + b)
unfolding ones
ones-ones-add a b = ground arith

pub words-le : (m : Mem) → IsBytes m → (p size : ℕ) → words m p size ≤ 32768 * (size + 1)
unfolding words
words-le m h p zero = omega arith
words-le m h p (suc zero) = omega (arith, h p)
words-le m h p (suc (suc size)) = omega (arith, h p, h (p + 1), words-le m h (p + 2) size)

-- Every byte, by evaluation.
high_bytes_kept : ℕ → Bool
high_bytes_kept zero = true
high_bytes_kept (suc a) = bit_and (a * 256) 0xff00 == a * 256 && high_bytes_kept a

high_bytes_kept_lem :
    (n a : ℕ) → high_bytes_kept n ≡ true → a < n → bit_and (a * 256) 0xff00 ≡ a * 256
unfolding high_bytes_kept
high_bytes_kept_lem zero a h lt = absurd (omega arith)
high_bytes_kept_lem (suc n) a h lt = ground (arith, high_bytes_kept_lem n a)

high_byte : (a : ℕ) → a < 256 → bit_and (a * 256) 0xff00 ≡ a * 256
unfolding high_bytes_kept
high_byte a h = high_bytes_kept_lem 256 a refl h

pub word_at_lem : (a b : ℕ) → a < 256 → b < 256 → word_at a b ≡ a * 256 + b
unfolding word_at
word_at_lem a b ha hb =
    rw (high_byte a ha, bit_and_low 8 b) (omega (arith, bit_or_low 8 a (b % 256) (omega arith)))

pub add_words_lem :
    (m : Mem)
    → IsBytes m
    → (p size c : ℕ) → p + size ≤ length m
    → c + words m p size < 2 ^ 32
    → add_words m p size c ≡ some (c + words m p size)
unfolding add_words words
add_words_lem m h p zero c fits small = ground arith
add_words_lem m h p (suc zero) c fits small =
    rw (load-byte m p (omega arith), bit_and_low 16 (byte m p * 256)) (ground (arith, h p))
add_words_lem m h p (suc (suc size)) c fits small =
    rw
      (
        load-byte m p (omega arith),
        load-byte m (p + 1) (omega arith),
        word_at_lem (byte m p) (byte m (p + 1)) (h p) (h (p + 1)),
      )
      (ground (arith, add_words_lem m h (p + 2) size (u32 (c + (byte m p * 256 + byte m (p + 1))))))

load_inside : (m : Mem) (p : ℕ) (a : ℕ) → load m p ≡ some a → p + 1 ≤ length m
load_inside [] p a h = absurd (cc)
load_inside (x ∷ m) zero a h = omega arith
load_inside (x ∷ m) (suc p) a h = omega (arith, load_inside m p a h)

load_outside : (m : Mem) (p : ℕ) → length m ≤ p → load m p ≡ none
load_outside [] p h = refl
load_outside (x ∷ m) zero h = absurd (omega arith)
load_outside (x ∷ m) (suc p) h = load_outside m p (omega arith)

-- A block that starts in the object and ends behind it cannot be added up.
pub add_words_outside :
    (m : Mem) (p size c : ℕ) → p ≤ length m → length m < p + size → add_words m p size c ≡ none
unfolding add_words
add_words_outside m p zero c inside outside = absurd (omega arith)
add_words_outside m p (suc zero) c inside outside = rw (load_outside m p (omega arith))
add_words_outside m p (suc (suc size)) c inside outside = >>=-none (load m p) _ λ a ea.
    >>=-none (load m (p + 1)) _ λ b eb.
      add_words_outside m (p + 2) size (u32 (c + word_at a b))
        (omega (arith, load_inside m (p + 1) b eb)) (omega arith)

-- `fold_carries` with this fuel gives the representative of every sum below `bound`.
abbrev Folds : ℕ → ℕ → Type 0
Folds fuel bound = (s : ℕ) → s < bound → fold_carries fuel s ≡ some (ones s)

-- One round more, for sums that one round brings below the bound.
Folds-suc :
    (fuel bound more : ℕ)
    → ((s : ℕ) → s < more → s % 2 ^ 16 + s / 2 ^ 16 < bound)
    → Folds fuel bound
    → Folds (suc fuel) more
unfolding fold_carries ones
Folds-suc fuel bound more falls ih s h =
    rw (bit_and_low 16 s) (ground (arith, falls s h, ih (s % 2 ^ 16 + s / 2 ^ 16)))

Folds-one : Folds 1 (2 ^ 16)
unfolding fold_carries ones
Folds-one s h = ground arith

pub fold_carries_lem : (s : ℕ) → s < 2 ^ 64 → fold_carries enough s ≡ some (ones s)
fold_carries_lem =
    Folds-suc 5 (2 ^ 63) (2 ^ 64) (λ s h. omega arith)
      (Folds-suc 4 (2 ^ 48 - 2 ^ 32) (2 ^ 63) (λ s h. omega arith)
        (Folds-suc 3 (2 ^ 32) (2 ^ 48 - 2 ^ 32) (λ s h. omega arith)
          (Folds-suc 2 131071 (2 ^ 32) (λ s h. omega arith)
            (Folds-suc 1 (2 ^ 16) 131071 (λ s h. omega arith) Folds-one))))

-- On a block inside the object, with an accumulator that leaves room for it in a uint32_t,
-- `Checksum` reads nothing outside, its folding loop ends, and it returns the ones' complement sum
-- of the accumulator and the words of the block.
pub checksum_lem :
    (m : Mem)
    → IsBytes m
    → (c p size : ℕ) → p + size ≤ length m
    → 0 < size
    → c + words m p size < 2 ^ 32
    → checksum m c (some p) size ≡ some (ones (c + words m p size))
unfolding checksum
checksum_lem m h c p size fits pos small =
    rw (add_words_lem m h p size c fits small, fold_carries_lem (c + words m p size) (omega arith))
      (ground arith)

pub add_host_words_lem :
    (m : Mem)
    → IsBytes m
    → (p size c : ℕ) → p + size ≤ length m
    → c + host_words m p size < 2 ^ 64
    → add_host_words m p size c ≡ some (c + host_words m p size)
unfolding add_host_words host_words
add_host_words_lem m h p zero c fits small = ground arith
add_host_words_lem m h p (suc zero) c fits small =
    rw (load-byte m p (omega arith)) (ground (arith, h p))
add_host_words_lem m h p (suc (suc size)) c fits small =
    rw (load-byte m p (omega arith), load-byte m (p + 1) (omega arith))
      (ground
        (arith, add_host_words_lem m h (p + 2) size (u64 (c + (byte m p + byte m (p + 1) * 256)))))

-- On a block inside the object `csum` reads nothing outside, its folding loop ends, and it returns
-- the complement of the ones' complement sum of the host's words.
pub csum_lem :
    (m : Mem)
    → IsBytes m
    → (p size : ℕ) → p + size ≤ length m
    → host_words m p size < 2 ^ 64
    → csum m p size ≡ some (65535 - ones (host_words m p size))
unfolding csum
csum_lem m h p size fits small =
    let zero_add : 0 + host_words m p size ≡ host_words m p size = omega arith in
    rw
      (
        add_host_words_lem m h p size 0 fits (omega arith),
        zero_add,
        fold_carries_lem (host_words m p size) small,
      )
      (ground (arith, ones-le (host_words m p size)))
