-- ===== src/Sftpdir/Program/Laws.antt =====
-- What c/libssh2/sftpdir.c has released when it exits.
use study_tips.Base.{◌≡◌, Bool, true, false, not, ◌&&◌, some, List, ℕ, if◌then◌else◌}
use study_tips.Base.Int.{pos, minus_one, is_neg, eqb}
use study_tips.Os.{Run, status}
use study_tips.Sftpdir.Arguments.{Settings}
use study_tips.Sftpdir.Auth.{Method, unsupported, method_of, auth_bits, offer_of, wish_of}
use study_tips.Sftpdir.Program.{Call, Replies}
use study_tips.Sftpdir.Program.Held.{library, socket_fd, session, sftp, handle, held, has_last}

-- The library does not answer with NULL where `main` does not look, and the listing comes to its end.
pub record IsAnswered (r : Replies) (offered : List ℕ) : Type 0 where
  pub fingerprint : r.has_fingerprint ≡ true
  pub offers : r.userauthlist ≡ some offered
  pub listed : has_last r.on_readdir ≡ true

-- How far a run gets: to the library, to a connection, to a session, to the SSH session.
abbrev pub has_library : Replies → Bool
has_library r = eqb r.on_init (pos 0)

abbrev pub has_session : Replies → Bool
has_session r = eqb r.on_connect (pos 0) && r.on_session

abbrev pub is_connected : Replies → Bool
is_connected r = has_session r && eqb r.on_handshake (pos 0)

abbrev pub is_authenticated : Method → Replies → Bool
is_authenticated unsupported r = false
is_authenticated _ r = eqb r.on_userauth (pos 0)

-- What is held at the end of a run that begins with a library and a session, and perhaps a socket.
record IsFreed (run : Run Call) (left : Bool) : Type 0 where
  exit_status : status run ≡ some (pos 0)
  no_library : held library true run ≡ false
  no_socket : (now : Bool) → held socket_fd now run ≡ false
  no_session : held session true run ≡ false
  no_handle : held handle false run ≡ false
  sftp_left : held sftp false run ≡ left

-- The way to authenticate that `main` takes.
abbrev pub taken : List ℕ → Settings → Method
taken offered s = method_of (auth_bits (offer_of offered) (wish_of s.wish))

-- The end of a run that begins with nothing held; `granted` is whether authentication succeeds.
pub record IsReleased (r : Replies) (granted : Bool) (run : Run Call) : Type 0 where
  pub exit_status :
      status run
      ≡ some (if has_library r then (if is_connected r then pos 0 else minus_one) else pos 1)
  pub library_held : held library false run ≡ (has_library r && not (is_connected r))
  pub socket_held :
      held socket_fd false run
      ≡ (has_library r && (not (is_connected r) && not (is_neg r.on_socket)))
  pub session_held :
      held session false run ≡ (has_library r && (has_session r && not (is_connected r)))
  pub no_handle : held handle false run ≡ false
  pub sftp_held :
      held sftp false run
      ≡ (has_library r && (is_connected r && (granted && (r.on_sftp && not r.on_opendir))))
