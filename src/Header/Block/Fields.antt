-- ===== src/Header/Block/Fields.antt =====
-- Fields of a few bytes in memory, low byte first.
use study_tips.Base.{
  ℕ, zero, suc, ◌+◌, ◌*◌, ◌/◌, ◌%◌, ◌^◌, ◌≤◌, ◌<◌, ◌≡◌, ◌⊎◌, refl, sym, ap, ◌∙◌, arith, Option,
  some, List, [], ◌∷◌, length,
}
use study_tips.Base.Word.{u8}
use study_tips.Base.Le.{from_le, to_le, length-to_le, from_le-to_le}
use study_tips.Header.Memory.{Mem, byte, load-byte, ◌>>=◌}
use study_tips.Header.Block.{copy, slice}
use study_tips.Header.Block.Writes.{copy-Writes}

-- A word of `n` bytes at `p`; `none` is an access outside the object.
unfoldable pub load_le : ℕ → Mem → ℕ → Option ℕ
load_le n m p = slice m p n >>= λ bytes. some (from_le bytes)

unfoldable pub store_le : ℕ → Mem → ℕ → ℕ → Option Mem
store_le n m p v = copy m p (to_le n v)

-- What the bytes of a field say.
unfoldable pub word : ℕ → Mem → ℕ → ℕ
word zero m p = 0
word (suc n) m p = byte m p + word n m (p + 1) * 256

pub load_le-word : (n : ℕ) (m : Mem) (p : ℕ) → p + n ≤ length m → load_le n m p ≡ some (word n m p)
unfolding load_le word slice from_le
load_le-word zero m p h = refl
load_le-word (suc n) m p h = ground (arith, load-byte m p, load_le-word n m (p + 1))

pub word_ext :
    (n : ℕ) (m out : Mem) (p : ℕ)
    → ((j : ℕ) → p ≤ j → j < p + n → byte out j ≡ byte m j)
    → word n out p ≡ word n m p
unfolding word
word_ext zero m out p same = refl
word_ext (suc n) m out p same = omega (
  arith,
  same p (omega arith) (omega arith),
  word_ext n m out (p + 1) (λ j a b. same j (omega arith) (omega arith)),
)

-- Bytes that are written where a word is read.
word-written :
    (xs : List ℕ) (out : Mem) (p : ℕ)
    → ((i : ℕ) → i < length xs → byte out (p + i) ≡ byte xs i)
    → word (length xs) out p ≡ from_le xs
unfolding word from_le
word-written [] out p same = refl
word-written (x ∷ xs) out p same =
    let first : byte out p ≡ x = ap (byte out) (omega arith) ∙ same 0 (omega arith) in
    omega (
      arith,
      first,
      word-written xs out (p + 1) (λ i l. ap (byte out) (omega arith) ∙ same (suc i) (omega arith)),
    )

to_le_bytes : (n w i : ℕ) → u8 (byte (to_le n w) i) ≡ byte (to_le n w) i
unfolding to_le
to_le_bytes zero w i = omega arith
to_le_bytes (suc n) w zero = omega arith
to_le_bytes (suc n) w (suc i) = to_le_bytes n (w / 256) i

-- What a store of a field leaves: the word, as far as its bytes go, and all else as it was.
pub record Stored (n : ℕ) (m : Mem) (p v : ℕ) (call : Option Mem) : Type 0 where
  pub out : Mem
  pub returns : call ≡ some out
  pub same_length : length out ≡ length m
  pub field : word n out p ≡ v % 256 ^ n
  pub others : (j : ℕ) → (j < p) ⊎ (p + n ≤ j) → byte out j ≡ byte m j

pub store_le-Stored :
    (n : ℕ) (m : Mem) (p v : ℕ) → p + n ≤ length m → Stored n m p v (store_le n m p v)
unfolding store_le
store_le-Stored n m p v h =
    let len = length-to_le n v in
    let w = copy-Writes m p (to_le n v) (omega (arith, len)) in
    let there : word (length (to_le n v)) w.out p ≡ from_le (to_le n v) =
      word-written (to_le n v) w.out p (λ i l. w.written i l ∙ to_le_bytes n v i) in
    record {
      out = w.out;
      returns = w.returns;
      same_length = w.same_length;
      field = ap (λ k. word k w.out p) (sym len) ∙ there ∙ from_le-to_le n v;
      others = λ j l. w.others j (ground (arith, len));
    }
