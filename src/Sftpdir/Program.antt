-- ===== src/Sftpdir/Program.antt =====
-- `main` of c/libssh2/sftpdir.c.
pub mod Held
pub mod Laws
use study_tips.Base.{
  ℕ, zero, suc, Bool, true, false, Option, none, some, List, [], ◌∷◌, if◌then◌else◌, ◌==◌, ltb,
}
use study_tips.Base.Int.{ℤ, pos, negsuc, minus_one, eqb}
use study_tips.Os.{Run, exit, fault, running, ◌▸◌}
use study_tips.Sftpdir.Arguments.{Settings, keyfile1, keyfile2, take_args}
use study_tips.Sftpdir.Auth.{
  Method, by_password, by_keyboard, by_publickey, unsupported, auth_bits, method_of, offer_of,
  wish_of,
}

-- The calls, with their answers: a result code, or whether an object is returned.
pub data Call : Type 0 where
  init : ℤ → Call
  socket : ℤ → Call
  connect : ℕ → ℤ → Call  -- the address
  session_init : Bool → Call
  handshake : ℤ → Call
  hostkey_hash : Call
  userauth_list : List ℕ → Call  -- the name
  userauth : Method → List ℕ → List (List ℕ) → ℤ → Call  -- the name, and the texts behind it
  sftp_init : Bool → Call
  set_blocking : Call
  opendir : List ℕ → Bool → Call
  readdir : ℤ → Call
  closedir : Call
  sftp_shutdown : Call
  disconnect : Call
  session_free : Call
  close : ℤ → Call
  lib_exit : Call

pub record Replies : Type 0 where
  pub on_init : ℤ
  pub on_socket : ℤ
  pub on_connect : ℤ
  pub on_session : Bool
  pub on_handshake : ℤ
  pub has_fingerprint : Bool
  pub userauthlist : Option (List ℕ)  -- `none` is NULL
  pub on_userauth : ℤ
  pub on_sftp : Bool
  pub on_opendir : Bool
  pub on_readdir : List ℤ

-- From the label `shutdown` on.
pub shutdown : Replies → Run Call
shutdown r = disconnect ▸ session_free ▸ close r.on_socket ▸ lib_exit ▸ exit (pos 0)

abbrev pub is_positive : ℤ → Bool
is_positive (pos n) = ltb 0 n
is_positive (negsuc n) = false

-- `do { ... } while (1)` on the entries.
pub list_entries : List ℤ → Run Call → Run Call
list_entries [] rest = running
list_entries (rc ∷ rcs) rest =
    let more = list_entries rcs rest in readdir rc ▸ (if is_positive rc then more else rest)

-- With an authenticated session.
pub list_dir : Settings → Replies → Run Call
list_dir s r =
    sftp_init r.on_sftp
    ▸ (if r.on_sftp
        then set_blocking
          ▸ opendir s.sftppath r.on_opendir
          ▸ (if r.on_opendir
              then list_entries r.on_readdir (closedir ▸ sftp_shutdown ▸ shutdown r)
              else shutdown r)
        else shutdown r)

-- What each way hands to libssh2 behind the name; the keyboard's has the callback there.
abbrev pub secrets : Method → Settings → List (List ℕ)
secrets by_password s = s.password ∷ []
secrets by_keyboard s = []
secrets by_publickey s = keyfile1 ∷ keyfile2 ∷ s.password ∷ []
secrets unsupported s = []

-- The ways to authenticate.
pub authenticate : Method → Settings → Replies → Run Call
authenticate unsupported s r = shutdown r
authenticate m s r =
    userauth m s.username (secrets m s) r.on_userauth
    ▸ (if eqb r.on_userauth (pos 0) then list_dir s r else shutdown r)

-- With the list of what the server offers; `strstr` on NULL is not defined.
pub with_list : Option (List ℕ) → Settings → Replies → Run Call
with_list none s r = fault
with_list (some offered) s r =
    authenticate (method_of (auth_bits (offer_of offered) (wish_of s.wish))) s r

-- From `libssh2_init` on.
pub run_with : Settings → Replies → Run Call
run_with s r =
    init r.on_init
    ▸ (if eqb r.on_init (pos 0)
        then socket r.on_socket
          ▸ connect s.hostaddr r.on_connect
          ▸ (if eqb r.on_connect (pos 0)
              then session_init r.on_session
                ▸ (if r.on_session
                    then handshake r.on_handshake
                      ▸ (if eqb r.on_handshake (pos 0)
                          then hostkey_hash
                            ▸ (if r.has_fingerprint
                                then userauth_list s.username ▸ with_list r.userauthlist s r
                                else fault)
                          else exit minus_one)
                    else exit minus_one)
              else exit minus_one)
        else exit (pos 1))

-- `main`, with `inet_addr` and the arguments behind the program's name.
pub main : (List ℕ → ℕ) → List (List ℕ) → Replies → Run Call
main inet_addr args r = run_with (take_args inet_addr args) r
