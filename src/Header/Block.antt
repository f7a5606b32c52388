-- ===== src/Header/Block.antt =====
-- `memset`, `memcpy` and reading a block, on the byte memory; and what every write keeps.
pub mod Writes
pub mod Fields
use study_tips.Base.{
  ℕ, zero, suc, ◌+◌, ◌≤◌, ◌<◌, ◌≡◌, refl, ap, ◌∙◌, Option, none, some, List, [], ◌∷◌, arith, length,
  length-set, set,
}
use study_tips.Base.Word.{u8}
use study_tips.Header.Memory.{
  Mem, load, store, store16, ◌>>=◌, byte, IsBytes, stored16, store16-stored16, stored16-IsStored16,
  byte-set_self, byte-set_ne, load-byte,
}

pub fill : Mem → ℕ → ℕ → ℕ → Option Mem
fill m p v zero = some m
fill m p v (suc n) = do m' ← store m p v; fill m' (p + 1) v n

pub copy : Mem → ℕ → List ℕ → Option Mem
copy m p [] = some m
copy m p (x ∷ xs) = do m' ← store m p x; copy m' (p + 1) xs

unfoldable pub slice : Mem → ℕ → ℕ → Option (List ℕ)
slice m p zero = some []
slice m p (suc n) = do a ← load m p; rest ← slice m (p + 1) n; some (a ∷ rest)

-- A memory of `n` bytes that is as `start` was from the place `top` on.
pub record IsFramed (n top : ℕ) (start m : Mem) : Type 0 where
  pub size : length m ≡ n
  pub bytes : IsBytes m
  pub above : (j : ℕ) → top ≤ j → byte m j ≡ byte start j

-- A write that succeeds, below `top`.
pub record Keeps (n top : ℕ) (start : Mem) (call : Option Mem) : Type 0 where
  pub out : Mem
  pub returns : call ≡ some out
  pub framed : IsFramed n top start out

-- What follows a write that succeeds.
pub Keeps->>= {ℓ κ} :
    {A : Type ℓ} (P : Option A → Type κ) (n top : ℕ) (start : Mem) {c : Option Mem}
    (f : Mem → Option A)
    → Keeps n top start c
    → ((m : Mem) → IsFramed n top start m → P (f m))
    → P (c >>= f)
Keeps->>= P n top start f k after = rw k.returns (after k.out k.framed)

module _ (n top : ℕ) (start : Mem) where
  pub store-Keeps :
      (m : Mem) (p v : ℕ)
      → IsFramed n top start m
      → p < n
      → p < top
      → Keeps n top start (store m p v)
  store-Keeps m p v s h t = record {
    out = set m p (u8 v);
    returns = ground (arith, s.size);
    framed = record {
      size = omega (arith, s.size, length-set m p (u8 v));
      bytes = λ i.
          ground (arith, s.size, s.bytes i, byte-set_self m p (u8 v), byte-set_ne m p i (u8 v));
      above = λ j g. ground (arith, s.above j g, byte-set_ne m p j (u8 v));
    };
  }

  pub store16-Keeps :
      (m : Mem) (p v : ℕ)
      → IsFramed n top start m
      → p + 1 < n
      → p + 1 < top
      → Keeps n top start (store16 m p v)
  store16-Keeps m p v s h t =
      let fits : p + 1 < length m = omega (arith, s.size) in
      let after = stored16-IsStored16 m p v fits in
      record {
        out = stored16 m p v;
        returns = store16-stored16 m p v fits;
        framed = record {
          size = omega (arith, s.size, after.same_length);
          bytes = λ i. ground (arith, s.bytes i, after.low, after.high, after.others i);
          above = λ j g. ground (arith, s.above j g, after.others j);
        };
      }

  pub fill-Keeps :
      (k : ℕ) (m : Mem) (p v : ℕ)
      → IsFramed n top start m
      → p + k ≤ n
      → p + k ≤ top
      → Keeps n top start (fill m p v k)
  unfolding fill
  fill-Keeps zero m p v s h t = record { out = m; returns = refl; framed = s }
  fill-Keeps (suc k) m p v s h t =
      Keeps->>= (Keeps n top start) n top start (λ m'. fill m' (p + 1) v k)
        (store-Keeps m p v s (omega arith) (omega arith))
        (λ m' s'. fill-Keeps k m' (p + 1) v s' (omega arith) (omega arith))

  pub copy-Keeps :
      (m : Mem) (p : ℕ) (xs : List ℕ)
      → IsFramed n top start m
      → p + length xs ≤ n
      → p + length xs ≤ top
      → Keeps n top start (copy m p xs)
  unfolding copy
  copy-Keeps m p [] s h t = record { out = m; returns = refl; framed = s }
  copy-Keeps m p (x ∷ xs) s h t =
      Keeps->>= (Keeps n top start) n top start (λ m'. copy m' (p + 1) xs)
        (store-Keeps m p x s (omega arith) (omega arith))
        (λ m' s'. copy-Keeps m' (p + 1) xs s' (omega arith) (omega arith))

  -- Such writes one after the other; `After f` says that what follows is one.
  abbrev pub After : (Mem → Option Mem) → Type 0
  After f = (m : Mem) → IsFramed n top start m → Keeps n top start (f m)

  module _ {f : Mem → Option Mem} where
    pub then : {c : Option Mem} → Keeps n top start c → After f → Keeps n top start (c >>= f)
    then k after = Keeps->>= (Keeps n top start) n top start f k after

    pub store-then :
        (m : Mem) (p v : ℕ)
        → IsFramed n top start m
        → (p < n) × (p < top)
        → After f
        → Keeps n top start (store m p v >>= f)
    store-then m p v s h after = then (store-Keeps m p v s h.0 h.1) after

    pub store16-then :
        (m : Mem) (p v : ℕ)
        → IsFramed n top start m
        → (p + 1 < n) × (p + 1 < top)
        → After f
        → Keeps n top start (store16 m p v >>= f)
    store16-then m p v s h after = then (store16-Keeps m p v s h.0 h.1) after

-- A block inside the object can be read.
pub record Reads (m : Mem) (p k : ℕ) : Type 0 where
  pub block : List ℕ
  pub returns : slice m p k ≡ some block
  pub whole : length block ≡ k
  pub at : (i : ℕ) → i < k → byte block i ≡ byte m (p + i)

pub slice-Reads : (k : ℕ) (m : Mem) (p : ℕ) → p + k ≤ length m → Reads m p k
unfolding slice
slice-Reads zero m p h = record {
  block = [];
  returns = refl;
  whole = refl;
  at = λ i l. absurd (omega arith);
}
slice-Reads (suc k) m p h =
    let rest = slice-Reads k m (p + 1) (omega arith) in
    record {
      block = byte m p ∷ rest.block;
      returns = rw (load-byte m p (omega arith), rest.returns);
      whole = omega (arith, rest.whole);
      at = elim [
        | zero ↦ λ l. ap (byte m) (omega arith)
        | suc i ↦ λ l. rest.at i (omega arith) ∙ ap (byte m) (omega arith)
      ];
    }

-- A fault in what follows every success is a fault.
pub >>=-none {ℓ κ} :
    {A : Type ℓ} {B : Type κ} (c : Option A) (f : A → Option B)
    → ((a : A) → c ≡ some a → f a ≡ none)
    → (c >>= f) ≡ none
>>=-none none f h = refl
>>=-none (some a) f h = h a refl

pub none->>= {ℓ κ} :
    {A : Type ℓ} {B : Type κ} (c : Option A) (f : A → Option B) → c ≡ none → (c >>= f) ≡ none
none->>= c f e = rw e
