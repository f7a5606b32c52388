-- ===== src/Signal/Process.antt =====
-- The process of c/signal/main.c and the signal that it watches, one whose default action ends the
-- process. The kernel and the sender of signals choose the steps.
use study_tips.Base.{
  ℕ, ◌+◌, ◌-◌, ◌<◌, ◌≡◌, Bool, true, false, if◌then◌else◌, ◌==◌, not, List, some, none,
}
use study_tips.Base.Int.{ℤ, pos, minus_one, is_neg, eqb}
use study_tips.Signal.Defs.{
  Settings, Wait, pausing, polling, masked, leaving, returned, Replies, thread_entry, Opt,
  take_options,
}

pub data Disposition : Type 0 where
  custom default : Disposition

pub data Phase : Type 0 where
  going exited killed : Phase

abbrev pub is_killed : Phase → Bool
is_killed going = false
is_killed exited = false
is_killed killed = true

pub record Process : Type 0 where
  pub disposition : Disposition
  pub pending : ℕ  -- for the process
  pub directed : ℕ  -- for the second thread
  pub wait : Wait
  pub phase : Phase
  pub sent : ℕ  -- how often the signal has come from outside
  pub handled : ℕ  -- how often the handler has run

-- `custom_signal_handler`: `sigaction` with SIG_DFL, then perhaps `kill` or `pthread_kill`.
unfoldable pub custom_signal_handler : Settings → ℤ → Process → Process
custom_signal_handler s signum p =
    if not (eqb s.signumpara signum)
    then p
    else (if s.thread_test == 0
        then (if s.no_pass_again == 0
            then record p { disposition = default; pending = p.pending + 1 }
            else record p { disposition = default })
        else record p { disposition = default; directed = p.directed + 1 })

-- The delivery to the handler: SA_RESETHAND puts the default handling back before the handler runs.
unfoldable pub deliver : Settings → Process → Process
unfolding custom_signal_handler
deliver s p =
    custom_signal_handler s s.signumpara
      (record p { disposition = default; pending = p.pending - 1; handled = p.handled + 1 })

-- What `main` has set up before it waits for the second thread.
unfoldable pub start : Settings → Replies → Process
start s r = record {
  disposition = custom;
  pending = 0;
  directed = 0;
  wait = thread_entry s r;
  phase = going;
  sent = 0;
  handled = 0;
}

-- Whether the second thread is there and holds nothing back.
abbrev pub is_open : Wait → Bool
is_open pausing = true
is_open polling = true
is_open masked = false
is_open leaving = true
is_open returned = false

-- `epoll_pwait` has a time limit, `pause` has none.
abbrev pub has_limit : Wait → Bool
has_limit pausing = false
has_limit polling = true
has_limit masked = true
has_limit leaving = false
has_limit returned = false

pub data Step (s : Settings) (p : Process) : Process → Type 0 where
  -- The signal comes from outside, to be queued, or to be one with those that are still pending.
  arrive : p.phase ≡ going → Step s p (record p { pending = p.pending + 1; sent = p.sent + 1 })
  merge : p.phase ≡ going → 0 < p.pending → Step s p (record p { sent = p.sent + 1 })
  -- The handler runs in the main thread, or in the second one, whose blocking call it ends.
  handle_main : p.phase ≡ going → p.disposition ≡ custom → 0 < p.pending → Step s p (deliver s p)
  handle_second :
      p.phase ≡ going
      → p.disposition ≡ custom
      → 0 < p.pending
      → is_open p.wait ≡ true
      → Step s p (record (deliver s p) { wait = leaving })
  -- The default action. The main thread holds nothing back.
  kill_main :
      p.phase ≡ going
      → p.disposition ≡ default
      → 0 < p.pending
      → Step s p (record p { phase = killed })
  kill_second :
      p.phase ≡ going
      → p.disposition ≡ default
      → 0 < p.directed
      → is_open p.wait ≡ true
      → Step s p (record p { phase = killed })
  -- The second thread's call returns at its time limit, and the thread ends.
  time_out : p.phase ≡ going → has_limit p.wait ≡ true → Step s p (record p { wait = leaving })
  finish : p.phase ≡ going → p.wait ≡ leaving → Step s p (record p { wait = returned })
  -- `pthread_join` returns, and `main` does.
  join : p.phase ≡ going → p.wait ≡ returned → Step s p (record p { phase = exited })

pub data Reach (s : Settings) (r : Replies) : Process → Type 0 where
  here : Reach s r (start s r)
  next : {p q : Process} → Reach s r p → Step s p q → Reach s r q

-- What the shell sees of `main`: an exit, or the process that waits for its second thread.
pub data Launch : Type 0 where
  exits : ℤ → Launch
  launched : Process → Launch

abbrev pub default_settings : ℤ → Settings
default_settings sigint = record {
  thread_test = 0;
  no_pass_again = 0;
  epoll_blocked = 0xff;
  signumpara = sigint;
}

-- From the call of `sigaction` on, with the answers to it and to `pthread_create`.
pub launch : Settings → ℤ → ℤ → Replies → Launch
launch s on_sigaction on_create r =
    if eqb on_sigaction minus_one
    then exits (pos 1)
    else (if is_neg on_create then exits (pos 1) else launched (start s r))

-- `main`, with the number of SIGINT and the options.
pub main : (List ℕ → ℤ) → ℤ → List Opt → ℤ → ℤ → Replies → Launch
main atoi sigint opts on_sigaction on_create r =
    elim (take_options atoi opts (default_settings sigint)) [
      | none ↦ exits (pos 1)
      | some s ↦ launch s on_sigaction on_create r
    ]
