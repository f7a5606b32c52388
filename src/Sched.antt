-- ===== src/Sched.antt =====
-- c/sched/sched.c: sets its scheduling policy and counts until a signal comes.
pub mod Laws
use study_tips.Base.{ℕ, ◌+◌, Option, none, some, List, [], ◌∷◌, if◌then◌else◌, ◌==◌, not}
use study_tips.Base.Int.{ℤ, pos, minus_one, is_neg, eqb}
use study_tips.Base.Word.{u64}
use study_tips.Header.Memory.{◌>>=◌}
use study_tips.Os.{Run, exit, running, ◌▸◌}

-- The calls, with the kernel's answer at the end.
pub data Call : Type 0 where
  sigaction : ℤ → Call  -- for one signal, with `term_handler`
  getscheduler : ℤ → Call
  setscheduler : ℤ → ℕ → ℤ → Call  -- the policy and the priority
  strerror : Call
  system : Call  -- "cat /proc/.../status", without its last argument

-- What <sched.h> and <signal.h> define.
pub record Constants : Type 0 where
  pub sigint : ℤ
  pub sigterm : ℤ
  pub sched_rr : ℤ
  pub sched_batch : ℤ

-- The kernel's answers, and what the rounds of the last loop find in `g_exit`.
pub record Replies : Type 0 where
  pub on_getscheduler : ℤ
  pub on_setscheduler : ℤ
  pub on_getscheduler_again : ℤ
  pub g_exit : List ℕ

-- What `getopt` returns for one option.
pub data Opt : Type 0 where
  rr batch unknown : Opt

-- `while (g_exit == 0)`, with `count`, and `system` behind it.
pub spin : ℕ → List ℕ → Run Call
spin count [] = running
spin count (flag ∷ flags) =
    let further = spin (u64 (count + 1)) flags in
    if flag == 0 then further else system ▸ exit (pos 0)

module _ (c : Constants) where
  -- The loop on `getopt`, with `policy`; `none` is the exit with the usage text.
  pub take_options : List Opt → ℤ → Option ℤ
  take_options [] policy = some policy
  take_options (rr ∷ os) policy = take_options os c.sched_rr
  take_options (batch ∷ os) policy = take_options os c.sched_batch
  take_options (unknown ∷ os) policy = none

  -- `tParam.sched_priority`
  pub priority : ℤ → ℕ
  priority policy = if eqb policy c.sched_rr then 1 else 0

  -- The part for a policy that has been set.
  pub set_policy : Replies → ℤ → Run Call → Run Call
  set_policy r policy rest =
      if eqb policy minus_one
      then rest
      else setscheduler policy (priority policy) r.on_setscheduler
        ▸ (if is_neg r.on_setscheduler
            then strerror ▸ rest
            else getscheduler r.on_getscheduler_again ▸ rest)

  pub main : List Opt → Replies → Run Call
  main opts r =
      sigaction c.sigint
      ▸ sigaction c.sigterm
      ▸ getscheduler r.on_getscheduler
      ▸ elim (take_options opts minus_one) [
        | none ↦ exit (pos 1)
        | some policy ↦ set_policy r policy (spin 0 r.g_exit)
      ]
