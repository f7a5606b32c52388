-- ===== src/Header/Block/Writes.antt =====
-- What the writes of c/common and c/raw6 leave in memory, byte by byte.
use study_tips.Base.{
  ℕ, zero, suc, ◌+◌, ◌/◌, ◌≤◌, ◌<◌, ◌≡◌, ◌⊎◌, inl, refl, ap, ◌∙◌, arith, Option, none, some, List,
  [], ◌∷◌, length, length-set, length-replicate, set, replicate,
}
use study_tips.Base.Word.{u8}
use study_tips.Header.Memory.{Mem, byte, store, store16, ◌>>=◌, byte-set_self, byte-set_ne}
use study_tips.Header.Block.{fill, copy}

-- A call that writes the bytes `xs` at `p`, and nothing else.
pub record Writes (m : Mem) (p : ℕ) (xs : List ℕ) (call : Option Mem) : Type 0 where
  pub out : Mem
  pub returns : call ≡ some out
  pub same_length : length out ≡ length m
  pub written : (i : ℕ) → i < length xs → byte out (p + i) ≡ u8 (byte xs i)
  pub others : (j : ℕ) → (j < p) ⊎ (p + length xs ≤ j) → byte out j ≡ byte m j

pub copy-Writes :
    (m : Mem) (p : ℕ) (xs : List ℕ) → p + length xs ≤ length m → Writes m p xs (copy m p xs)
unfolding copy
copy-Writes m p [] h = record {
  out = m;
  returns = refl;
  same_length = refl;
  written = λ i l. absurd (omega arith);
  others = λ j l. refl;
}
copy-Writes m p (x ∷ xs) h =
    let first : Mem = set m p (u8 x) in
    let len : length first ≡ length m = length-set m p (u8 x) in
    let rest = copy-Writes first (p + 1) xs (omega (arith, len)) in
    let stored : store m p x ≡ some first = ground arith in
    record {
      out = rest.out;
      returns = rw stored rest.returns;
      same_length = rest.same_length ∙ len;
      written = elim [
        | zero ↦ λ l.
            ap (byte rest.out) (omega arith)
            ∙ rest.others p (inl (omega arith))
            ∙ byte-set_self m p (u8 x) (omega arith)
        | suc i ↦ λ l. ap (byte rest.out) (omega arith) ∙ rest.written i (omega arith)
      ];
      others = λ j l. rest.others j (ground arith) ∙ byte-set_ne m p j (u8 x) (ground arith);
    }

-- The other writes, as copies.
>>=-some : (c : Option Mem) → (c >>= some) ≡ c
>>=-some none = refl
>>=-some (some m) = refl

store-copy : (m : Mem) (p v : ℕ) → copy m p (v ∷ []) ≡ store m p v
unfolding copy
store-copy m p v = >>=-some (store m p v)

>>=-cong :
    (c : Option Mem) (f g : Mem → Option Mem) → ((m : Mem) → f m ≡ g m) → (c >>= f) ≡ (c >>= g)
>>=-cong none f g h = refl
>>=-cong (some m) f g h = h m

store16-copy : (m : Mem) (p v : ℕ) → copy m p (v ∷ v / 256 ∷ []) ≡ store16 m p v
unfolding copy store16
store16-copy m p v =
    >>=-cong (store m p v) _ (λ m'. store m' (p + 1) (v / 256))
      (λ m'. >>=-some (store m' (p + 1) (v / 256)))

fill-copy : (k : ℕ) (m : Mem) (p v : ℕ) → copy m p (replicate k v) ≡ fill m p v k
unfolding copy fill
fill-copy zero m p v = refl
fill-copy (suc k) m p v =
    >>=-cong (store m p v) _ (λ m'. fill m' (p + 1) v k) (λ m'. fill-copy k m' (p + 1) v)

pub store-Writes : (m : Mem) (p v : ℕ) → p < length m → Writes m p (v ∷ []) (store m p v)
store-Writes m p v h = rw (← store-copy m p v) (copy-Writes m p (v ∷ []) (omega arith))

pub store16-Writes :
    (m : Mem) (p v : ℕ) → p + 1 < length m → Writes m p (v ∷ v / 256 ∷ []) (store16 m p v)
store16-Writes m p v h =
    rw (← store16-copy m p v) (copy-Writes m p (v ∷ v / 256 ∷ []) (omega arith))

pub fill-Writes :
    (k : ℕ) (m : Mem) (p v : ℕ) → p + k ≤ length m → Writes m p (replicate k v) (fill m p v k)
fill-Writes k m p v h =
    rw (← fill-copy k m p v)
      (copy-Writes m p (replicate k v) (omega (arith, length-replicate {A = ℕ} k v)))

-- What such a call leaves.
pub record Wrote (m : Mem) (p : ℕ) (xs : List ℕ) (out : Mem) : Type 0 where
  pub same_length : length out ≡ length m
  pub written : (i : ℕ) → i < length xs → byte out (p + i) ≡ u8 (byte xs i)
  pub others : (j : ℕ) → (j < p) ⊎ (p + length xs ≤ j) → byte out j ≡ byte m j

-- What follows a write.
pub Writes->>= {κ} :
    (P : Option Mem → Type κ) {m : Mem} {p : ℕ} {xs : List ℕ} {c : Option Mem}
    (f : Mem → Option Mem)
    → Writes m p xs c
    → ((out : Mem) → Wrote m p xs out → P (f out))
    → P (c >>= f)
Writes->>= P f w after =
    rw w.returns
      (after w.out (record { same_length = w.same_length; written = w.written; others = w.others }))
