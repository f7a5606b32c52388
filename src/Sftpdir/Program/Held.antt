-- ===== src/Sftpdir/Program/Held.antt =====
-- What a run of c/libssh2/sftpdir.c holds.
use study_tips.Base.{◌≡◌, arith, Bool, true, false, not, List, [], ◌∷◌, ◌||◌}
use study_tips.Base.Int.{ℤ, pos, is_neg, eqb}
use study_tips.Os.{Run, exit, fault, running, ◌▸◌, status}
use study_tips.Sftpdir.Program.{
  Call, init, socket, session_init, sftp_init, opendir, closedir, sftp_shutdown, session_free,
  close, lib_exit, is_positive, list_entries,
}

pub data Resource : Type 0 where
  library socket_fd session sftp handle : Resource

-- Whether a resource is held behind a call, from whether it was before it.
abbrev pub after : Resource → Call → Bool → Bool
after library (init rc) now = eqb rc (pos 0)
after library lib_exit now = false
after socket_fd (socket fd) now = not (is_neg fd)
after socket_fd (close fd) now = false
after session (session_init got) now = got
after session session_free now = false
after sftp (sftp_init got) now = got
after sftp sftp_shutdown now = false
after handle (opendir path got) now = got
after handle closedir now = false
after _ _ now = now

-- Whether it is held at the end of a run.
abbrev pub held : Resource → Bool → Run Call → Bool
held s now (exit c) = now
held s now fault = now
held s now running = now
held s now (e ▸ r) = held s (after s e now) r

-- Some `readdir` returns no name.
abbrev pub has_last : List ℤ → Bool
has_last [] = false
has_last (rc ∷ rcs) = not (is_positive rc) || has_last rcs

pub status-list_entries :
    (rcs : List ℤ) (rest : Run Call)
    → has_last rcs ≡ true
    → status (list_entries rcs rest) ≡ status rest
unfolding list_entries
status-list_entries [] rest h = absurd (cc h)
status-list_entries (rc ∷ rcs) rest h = ground (arith, status-list_entries rcs rest)

pub held-list_entries :
    (s : Resource) (now : Bool) (rcs : List ℤ) (rest : Run Call)
    → has_last rcs ≡ true
    → held s now (list_entries rcs rest) ≡ held s now rest
unfolding list_entries
held-list_entries s now [] rest h = absurd (cc h)
held-list_entries library now (rc ∷ rcs) rest h =
    ground (arith, held-list_entries library now rcs rest)
held-list_entries socket_fd now (rc ∷ rcs) rest h =
    ground (arith, held-list_entries socket_fd now rcs rest)
held-list_entries session now (rc ∷ rcs) rest h =
    ground (arith, held-list_entries session now rcs rest)
held-list_entries sftp now (rc ∷ rcs) rest h = ground (arith, held-list_entries sftp now rcs rest)
held-list_entries handle now (rc ∷ rcs) rest h =
    ground (arith, held-list_entries handle now rcs rest)
