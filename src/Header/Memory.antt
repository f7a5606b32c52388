-- ===== src/Header/Memory.antt =====
-- Byte memory: one list for the object that the pointers point into, and offsets for pointers.
-- The host is little-endian, as on the x86 machines that the demos are for.
use study_tips.Base.{
  ℕ, zero, suc, ◌+◌, ◌*◌, ◌/◌, ◌%◌, ◌<◌, ◌≡◌, ◌≢◌, refl, Option, none, some, List, [], ◌∷◌, arith,
  length, get_elem?, get_or, set, ltb, if◌then◌else◌, length-set, replicate, Bool, true, ◌&&◌,
}
use study_tips.Base.Word.{u8, u16}

abbrev pub Mem : Type 0
Mem = List ℕ

-- `none` is an access outside the object, which C leaves undefined.
infixl 5 ◌>>=◌
abbrev pub ◌>>=◌ {ℓ κ} : {A : Type ℓ} {B : Type κ} → Option A → (A → Option B) → Option B
none >>= f = none
some a >>= f = f a

abbrev pub load : Mem → ℕ → Option ℕ
load m p = get_elem? m p

abbrev pub store : Mem → ℕ → ℕ → Option Mem
store m p v = if ltb p (length m) then some (set m p (u8 v)) else none

-- A uint16_t is stored with its low byte first.
unfoldable pub store16 : Mem → ℕ → ℕ → Option Mem
store16 m p v = do m' ← store m p v; store m' (p + 1) (v / 256)

-- The byte order of the network is the other one.
abbrev pub htons : ℕ → ℕ
htons v = v % 256 * 256 + u16 v / 256

-- A byte of the object, for statements.
abbrev pub byte : Mem → ℕ → ℕ
byte m i = get_or m i 0

abbrev pub IsBytes : Mem → Type 0
IsBytes m = (i : ℕ) → byte m i < 256

pub load-byte : (m : Mem) (p : ℕ) → p < length m → load m p ≡ some (byte m p)
load-byte [] p h = absurd (omega arith)
load-byte (x ∷ m) zero h = refl
load-byte (x ∷ m) (suc p) h = load-byte m p (omega arith)

pub byte-set_self : (m : Mem) (p v : ℕ) → p < length m → byte (set m p v) p ≡ v
byte-set_self [] p v h = absurd (omega arith)
byte-set_self (x ∷ m) zero v h = refl
byte-set_self (x ∷ m) (suc p) v h = byte-set_self m p v (omega arith)

pub byte-set_ne : (m : Mem) (p j v : ℕ) → p ≢ j → byte (set m p v) j ≡ byte m j
byte-set_ne [] p j v h = refl
byte-set_ne (x ∷ m) zero zero v h = absurd (h refl)
byte-set_ne (x ∷ m) zero (suc j) v h = refl
byte-set_ne (x ∷ m) (suc p) zero v h = refl
byte-set_ne (x ∷ m) (suc p) (suc j) v h = byte-set_ne m p j v (λ e. h (omega arith))

-- What `store16` leaves, byte by byte.
pub record IsStored16 (m : Mem) (p v : ℕ) (out : Mem) : Type 0 where
  pub same_length : length out ≡ length m
  pub low : byte out p ≡ v % 256
  pub high : byte out (p + 1) ≡ v / 256 % 256
  pub others : (j : ℕ) → j ≢ p → j ≢ p + 1 → byte out j ≡ byte m j

abbrev pub stored16 : Mem → ℕ → ℕ → Mem
stored16 m p v = set (set m p (u8 v)) (p + 1) (u8 (v / 256))

pub store16-stored16 :
    (m : Mem) (p v : ℕ) → p + 1 < length m → store16 m p v ≡ some (stored16 m p v)
unfolding store16
store16-stored16 m p v h = ground (arith, length-set m p (u8 v))

pub stored16-IsStored16 : (m : Mem) (p v : ℕ) → p + 1 < length m → IsStored16 m p v (stored16 m p v)
stored16-IsStored16 m p v h =
    let m1 : Mem = set m p (u8 v) in
    record {
      same_length = omega (arith, length-set m1 (p + 1) (u8 (v / 256)), length-set m p (u8 v));
      low = omega (
        arith,
        byte-set_ne m1 (p + 1) p (u8 (v / 256)) (omega arith),
        byte-set_self m p (u8 v) (omega arith),
      );
      high = byte-set_self m1 (p + 1) (u8 (v / 256)) (omega (arith, length-set m p (u8 v)));
      others = λ j h1 h2. omega (
        arith,
        byte-set_ne m1 (p + 1) j (u8 (v / 256)) (omega arith),
        byte-set_ne m p j (u8 v) (omega arith),
      );
    }

abbrev pub all_bytes : Mem → Bool
all_bytes [] = true
all_bytes (x ∷ m) = ltb x 256 && all_bytes m

pub all_bytes-IsBytes : (m : Mem) → all_bytes m ≡ true → IsBytes m
all_bytes-IsBytes [] h i = omega arith
all_bytes-IsBytes (x ∷ m) h zero = ground arith
all_bytes-IsBytes (x ∷ m) h (suc i) = all_bytes-IsBytes m (ground arith) i

pub byte-replicate_zero : (n i : ℕ) → byte (replicate n 0) i ≡ 0
byte-replicate_zero zero i = refl
byte-replicate_zero (suc n) zero = refl
byte-replicate_zero (suc n) (suc i) = byte-replicate_zero n i
