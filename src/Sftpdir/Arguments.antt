-- ===== src/Sftpdir/Arguments.antt =====
-- The arguments of c/libssh2/sftpdir.c, and its keyboard callback.
use study_tips.Base.{ℕ, Option, none, some, List, [], ◌∷◌, get_elem?, set, length, if◌then◌else◌}
use study_tips.Base.Int.{ℤ, pos, eqb}
use study_tips.Sftpdir.Auth.{password_text}

abbrev pub username_text : List ℕ
username_text = b'u' ∷ b's' ∷ b'e' ∷ b'r' ∷ b'n' ∷ b'a' ∷ b'm' ∷ b'e' ∷ []

abbrev pub path_text : List ℕ
path_text =
    b'/' ∷ b't' ∷ b'm' ∷ b'p' ∷ b'/' ∷ b's' ∷ b'e' ∷ b'c' ∷ b'r' ∷ b'e' ∷ b't' ∷ b'd' ∷ b'i' ∷ b'r'
    ∷ []

abbrev pub keyfile1 : List ℕ
keyfile1 =
    b'~' ∷ b'/' ∷ b'.' ∷ b's' ∷ b's' ∷ b'h' ∷ b'/' ∷ b'i' ∷ b'd' ∷ b'_' ∷ b'r' ∷ b's' ∷ b'a' ∷ b'.'
    ∷ b'p' ∷ b'u' ∷ b'b' ∷ []

abbrev pub keyfile2 : List ℕ
keyfile2 =
    b'~' ∷ b'/' ∷ b'.' ∷ b's' ∷ b's' ∷ b'h' ∷ b'/' ∷ b'i' ∷ b'd' ∷ b'_' ∷ b'r' ∷ b's' ∷ b'a' ∷ []

-- `hostaddr`, `username`, `password` and `sftppath`, and the fifth argument, where there is one.
pub record Settings : Type 0 where
  pub hostaddr : ℕ
  pub username : List ℕ
  pub password : List ℕ
  pub sftppath : List ℕ
  pub wish : Option (List ℕ)

abbrev pub or_else {ℓ} : {A : Type ℓ} → Option A → A → A
or_else none a = a
or_else (some b) a = b

-- `htonl(0x7F000001)` on a little-endian host
abbrev pub localhost : ℕ
localhost = 0x0100007F

abbrev pub host_of : (List ℕ → ℕ) → Option (List ℕ) → ℕ
host_of inet_addr none = localhost
host_of inet_addr (some text) = inet_addr text

-- From the arguments behind the program's name.
pub take_args : (List ℕ → ℕ) → List (List ℕ) → Settings
take_args inet_addr args = record {
  hostaddr = host_of inet_addr (get_elem? args 0);
  username = or_else (get_elem? args 1) username_text;
  password = or_else (get_elem? args 2) password_text;
  sftppath = or_else (get_elem? args 3) path_text;
  wish = get_elem? args 4;
}

-- LIBSSH2_USERAUTH_KBDINT_RESPONSE; `none` is a text that has not been set.
pub record Response : Type 0 where
  pub text : Option (List ℕ)
  pub len : ℕ

-- What the callback makes of the responses, one for each prompt.
pub kbd_callback : Settings → ℤ → List Response → List Response
kbd_callback s num_prompts responses =
    if eqb num_prompts (pos 1)
    then set responses 0 (record { text = some s.password; len = length s.password })
    else responses
