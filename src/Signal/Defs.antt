-- ===== src/Signal/Defs.antt =====
-- The options, `thread_entry` and the start of `main` in c/signal/main.c.
use study_tips.Base.{ℕ, ◌^◌, ◌-◌, Option, none, some, List, [], ◌∷◌, if◌then◌else◌, ◌==◌}
use study_tips.Base.Int.{ℤ, pos, negsuc, is_neg}
use study_tips.Base.Word.{u8}
use study_tips.Header.Memory.{◌>>=◌}

-- The globals that the options set.
pub record Settings : Type 0 where
  pub thread_test : ℕ
  pub no_pass_again : ℕ
  pub epoll_blocked : ℕ
  pub signumpara : ℤ

-- What `getopt` returns for one option, with its argument.
pub data Opt : Type 0 where
  thread no_pass unknown : Opt
  epoll signum : List ℕ → Opt

-- int to unsigned char
abbrev pub to_u8 : ℤ → ℕ
to_u8 (pos n) = u8 n
to_u8 (negsuc n) = 2 ^ 8 - 1 - u8 n

module _ (atoi : List ℕ → ℤ) where
  pub take_option : Opt → Settings → Option Settings
  take_option thread s = some (record s { thread_test = 1 })
  take_option no_pass s = some (record s { no_pass_again = 1 })
  take_option (epoll text) s = some (record s { epoll_blocked = to_u8 (atoi text) })
  take_option (signum text) s = some (record s { signumpara = atoi text })
  take_option unknown s = none

  -- The loop on `getopt`; `none` is the exit with the usage text.
  pub take_options : List Opt → Settings → Option Settings
  take_options [] s = some s
  take_options (o ∷ os) s = take_option o s >>= take_options os

-- Where the second thread is: blocked in `pause`, in `epoll_pwait` with no mask or with one that
-- holds the signal back, on its way from there to its end, or at its end.
pub data Wait : Type 0 where
  pausing polling masked leaving returned : Wait

-- The answers to `epoll_create`, `pipe` and `epoll_ctl`.
pub record Replies : Type 0 where
  pub on_epoll_create : ℤ
  pub on_pipe : ℤ
  pub on_epoll_ctl : ℤ

-- `thread_entry`, up to the call that blocks.
pub thread_entry : Settings → Replies → Wait
thread_entry s r =
    if s.epoll_blocked == 0xff
    then pausing
    else (if is_neg r.on_epoll_create
        then leaving
        else (if is_neg r.on_pipe
            then leaving
            else (if is_neg r.on_epoll_ctl
                then leaving
                else (if s.epoll_blocked == 0
                    then polling
                    else (if s.epoll_blocked == 1 then masked else leaving)))))
