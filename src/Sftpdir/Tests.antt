-- ===== src/Sftpdir/Tests.antt =====
-- c/libssh2/sftpdir.c at concrete answers.
use study_tips.Base.{ℕ, List, ◌≡◌, true, false, some, [], ◌∷◌}
use study_tips.Base.Int.{pos}
use study_tips.Sftpdir.Auth.{Offer, auth_bits, by_publickey, method_of, password_text}
use study_tips.Sftpdir.Auth.Laws.{wish_for, method_of-auth_bits}
use study_tips.Sftpdir.Program.{Replies}

abbrev offer : Offer
offer = record { password = true; keyboard = false; publickey = true }

method_of-auth_bits_example : method_of (auth_bits offer (wish_for by_publickey)) ≡ by_publickey
method_of-auth_bits_example = method_of-auth_bits offer by_publickey

-- The directory cannot be opened.
abbrev replies : Replies
replies = record {
  on_init = pos 0;
  on_socket = pos 3;
  on_connect = pos 0;
  on_session = true;
  on_handshake = pos 0;
  has_fingerprint = true;
  userauthlist = some password_text;
  on_userauth = pos 0;
  on_sftp = true;
  on_opendir = false;
  on_readdir = pos 4 ∷ pos 0 ∷ [];
}

-- An address and a name, which is "me".
abbrev arguments : List (List ℕ)
arguments = (b'1' ∷ []) ∷ (b'm' ∷ b'e' ∷ []) ∷ []

abbrev inet_addr : List ℕ → ℕ
inet_addr text = 1
