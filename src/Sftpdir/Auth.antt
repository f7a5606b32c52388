-- ===== src/Sftpdir/Auth.antt =====
-- How `main` of c/libssh2/sftpdir.c chooses the way to authenticate: the bits of `auth_pw`.
pub mod Laws
use study_tips.Base.{
  ℕ, ◌+◌, Bool, true, false, ◌&&◌, ◌||◌, not, List, [], ◌∷◌, Option, none, some, bit_and, bit_or,
  if◌then◌else◌, ◌==◌, leb,
}

-- `strstr(text, part) != NULL`
abbrev pub starts_with : List ℕ → List ℕ → Bool
starts_with [] text = true
starts_with (p ∷ part) [] = false
starts_with (p ∷ part) (c ∷ text) = p == c && starts_with part text

abbrev pub has_part : List ℕ → List ℕ → Bool
has_part part [] = starts_with part []
has_part part (c ∷ text) = starts_with part (c ∷ text) || has_part part text

-- An ASCII letter as `strcasecmp` compares it.
abbrev pub to_lower : ℕ → ℕ
to_lower c = if leb b'A' c && leb c b'Z' then c + 32 else c

-- `!strcasecmp(a, b)`
abbrev pub same_letters : List ℕ → List ℕ → Bool
same_letters [] [] = true
same_letters [] (d ∷ b) = false
same_letters (c ∷ a) [] = false
same_letters (c ∷ a) (d ∷ b) = to_lower c == to_lower d && same_letters a b

abbrev pub password_text : List ℕ
password_text = b'p' ∷ b'a' ∷ b's' ∷ b's' ∷ b'w' ∷ b'o' ∷ b'r' ∷ b'd' ∷ []

abbrev pub keyboard_text : List ℕ
keyboard_text =
    b'k' ∷ b'e' ∷ b'y' ∷ b'b' ∷ b'o' ∷ b'a' ∷ b'r' ∷ b'd' ∷ b'-' ∷ b'i' ∷ b'n' ∷ b't' ∷ b'e' ∷ b'r'
    ∷ b'a' ∷ b'c' ∷ b't' ∷ b'i' ∷ b'v' ∷ b'e' ∷ []

abbrev pub publickey_text : List ℕ
publickey_text = b'p' ∷ b'u' ∷ b'b' ∷ b'l' ∷ b'i' ∷ b'c' ∷ b'k' ∷ b'e' ∷ b'y' ∷ []

-- What the server offers, as `main` finds it in the list.
pub record Offer : Type 0 where
  pub password : Bool
  pub keyboard : Bool
  pub publickey : Bool

abbrev pub offer_of : List ℕ → Offer
offer_of userauthlist = record {
  password = has_part password_text userauthlist;
  keyboard = has_part keyboard_text userauthlist;
  publickey = has_part publickey_text userauthlist;
}

-- What the fifth argument asks for: each field whether it is the option for that way.
pub record Wish : Type 0 where
  pub wants_password : Bool
  pub wants_keyboard : Bool
  pub wants_publickey : Bool

-- The fifth argument, where there is one.
abbrev pub wish_of : Option (List ℕ) → Wish
wish_of none = record { wants_password = false; wants_keyboard = false; wants_publickey = false }
wish_of (some arg) = record {
  wants_password = same_letters arg (b'-' ∷ b'p' ∷ []);
  wants_keyboard = same_letters arg (b'-' ∷ b'i' ∷ []);
  wants_publickey = same_letters arg (b'-' ∷ b'k' ∷ []);
}

abbrev pub has_bit : ℕ → ℕ → Bool
has_bit auth_pw bit = not (bit_and auth_pw bit == 0)

-- `auth_pw` before the fifth argument is looked at.
pub offered_bits : Offer → ℕ
offered_bits o =
    let p = if o.password then bit_or 0 1 else 0 in
    let k = if o.keyboard then bit_or p 2 else p in if o.publickey then bit_or k 4 else k

-- The three tests on the fifth argument, in order.
pub auth_bits : Offer → Wish → ℕ
auth_bits o w =
    let all = offered_bits o in
    let p = if has_bit all 1 && w.wants_password then 1 else all in
    let k = if has_bit p 2 && w.wants_keyboard then 2 else p in
    if has_bit k 4 && w.wants_publickey then 4 else k

pub data Method : Type 0 where
  by_password by_keyboard by_publickey unsupported : Method

-- The `if` on the bits of `auth_pw`.
pub method_of : ℕ → Method
method_of auth_pw =
    if has_bit auth_pw 1
    then by_password
    else (if has_bit auth_pw 2
        then by_keyboard
        else (if has_bit auth_pw 4 then by_publickey else unsupported))
