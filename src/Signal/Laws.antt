-- ===== src/Signal/Laws.antt =====
-- What holds in every run of c/signal/main.c.
use study_tips.Base.{
  ℕ, ◌+◌, ◌*◌, ◌≤◌, ◌<◌, ◌≡◌, ◌≢◌, ◌⊎◌, inl, inr, arith, true, false, if◌then◌else◌, ◌==◌,
}
use study_tips.Base.Int.{eqb_refl}
use study_tips.Signal.Defs.{Settings, Replies}
use study_tips.Signal.Process.{
  Process, is_open, custom, default, is_killed, going, killed, deliver, start, Step, arrive, merge,
  handle_main, handle_second, kill_main, kill_second, time_out, finish, join, Reach, here, next,
}

-- The signals that a run of the handler sends to the process, and to the second thread.
abbrev pub passed_on : Settings → ℕ
passed_on s = if s.thread_test == 0 then (if s.no_pass_again == 0 then 1 else 0) else 0

abbrev pub sent_to_second : Settings → ℕ
sent_to_second s = if s.thread_test == 0 then 0 else 1

-- The handler has run just if the default handling is back, and then once; no signal is made up, and
-- the one that is passed on is not lost; and a process that has been killed has had its handler run,
-- and another signal after that.
pub record IsSound (s : Settings) (p : Process) : Type 0 where
  pub handled_once :
      ((p.disposition ≡ custom) × (p.handled ≡ 0)) ⊎ ((p.disposition ≡ default) × (p.handled ≡ 1))
  pub all_sent : p.pending + p.handled ≤ p.sent + p.handled * passed_on s
  pub passed : p.handled * passed_on s ≤ p.pending
  pub came : p.handled ≤ p.sent
  pub to_second : p.directed ≡ p.handled * sent_to_second s
  pub killed_late :
      (is_killed p.phase ≡ false) ⊎ ((p.handled ≡ 1) × ((0 < p.pending) ⊎ (0 < p.directed)))

start-IsSound : (s : Settings) (r : Replies) → IsSound s (start s r)
unfolding start
start-IsSound s r = ground arith

Step-IsSound : (s : Settings) {p q : Process} → Step s p q → IsSound s p → IsSound s q
unfolding deliver
Step-IsSound s (arrive g) v = ground arith
Step-IsSound s (merge g n) v = ground arith
Step-IsSound s (handle_main g c n) v = ground (arith, eqb_refl s.signumpara)
Step-IsSound s (handle_second g c n i) v = ground (arith, eqb_refl s.signumpara)
Step-IsSound s (kill_main g c n) v = ground arith
Step-IsSound s (kill_second g c n i) v = ground arith
Step-IsSound s (time_out g l) v = ground arith
Step-IsSound s (finish g l) v = ground arith
Step-IsSound s (join g l) v = ground arith

-- In every state that a run of the program can come to: the handler has run just if the default
-- handling is back, and then once; no more signals have been handled or are pending than have come from
-- outside and been passed on; no more have been handled than have come from outside; one that has been
-- passed on to the process is pending; the second thread has been sent one just if the handler has run
-- and the thread test is on; and if the process has been killed, the handler has run and a signal was
-- still to be delivered.
pub Reach-IsSound : (s : Settings) (r : Replies) {p : Process} → Reach s r p → IsSound s p
Reach-IsSound s r here = start-IsSound s r
Reach-IsSound s r (next reach step) = Step-IsSound s step (Reach-IsSound s r reach)

-- Without the thread test and with the flag not to pass the signal on, a process that has been killed
-- has been sent the signal twice at least from outside.
pub killed_sent_twice :
    (s : Settings) (r : Replies) {p : Process}
    → s.thread_test ≡ 0
    → s.no_pass_again ≢ 0
    → Reach s r p
    → is_killed p.phase ≡ true
    → 2 ≤ p.sent
killed_sent_twice s r test no_pass reach dead =
    let v = Reach-IsSound s r reach in ground (arith, v.all_sent, v.to_second, v.killed_late)

-- With the signal passed on, to the process or to a second thread that is there and does not hold it back, a process
-- whose handler has run can be killed at once, with no further signal from outside.
pub handled_then_killed :
    (s : Settings) (r : Replies) {p : Process}
    → Reach s r p
    → p.phase ≡ going
    → p.disposition ≡ default
    → ((s.thread_test ≡ 0) × (s.no_pass_again ≡ 0))
      ⊎ ((s.thread_test ≢ 0) × (is_open p.wait ≡ true))
    → Step s p (record p { phase = killed })
handled_then_killed s r reach g d (inl (test, pass)) =
    let v = Reach-IsSound s r reach in kill_main g d (ground (arith, v.passed, v.handled_once))
handled_then_killed s r reach g d (inr (test, free)) =
    let v = Reach-IsSound s r reach in
    kill_second g d (ground (arith, v.to_second, v.handled_once)) free
