-- ===== src/Sched/Laws.antt =====
-- Which policy c/sched/sched.c sets, and when it ends.
use study_tips.Base.{
  ℕ, ◌≡◌, refl, arith, ◌+◌, Bool, true, false, not, ◌||◌, ◌==◌, none, some, List, [], ◌∷◌,
  if◌then◌else◌, Option, Option-cases, inl, inr,
}
use study_tips.Base.Int.{ℤ, minus_one, eqb, eqb_refl}
use study_tips.Base.Word.{u64}
use study_tips.Os.{Run, exit, fault, running, exits, ◌▸◌}
use study_tips.Sched.{
  Call, sigaction, getscheduler, setscheduler, strerror, system, Constants, Replies, Opt, rr, batch,
  unknown, take_options, priority, spin, set_policy, main,
}

-- The policies and priorities that a run sets.
abbrev pub policies : Run Call → List (ℤ × ℕ)
policies (exit c) = []
policies fault = []
policies running = []
policies (sigaction signum ▸ r) = policies r
policies (getscheduler answer ▸ r) = policies r
policies (setscheduler policy prio answer ▸ r) = (policy, prio) ∷ policies r
policies (strerror ▸ r) = policies r
policies (system ▸ r) = policies r

-- Whether some round finds `g_exit` set.
abbrev pub is_told : List ℕ → Bool
is_told [] = false
is_told (flag ∷ flags) = not (flag == 0) || is_told flags

spin_lem :
    (count : ℕ) (flags : List ℕ)
    → (exits (spin count flags) ≡ is_told flags) × (policies (spin count flags) ≡ [])
unfolding spin
spin_lem count [] = (refl, refl)
spin_lem count (flag ∷ flags) = ground (arith, spin_lem (u64 (count + 1)) flags)

-- What a list of options asks for: the usage text, or the policies to set, by the last option.
pub data Request : Type 0 where
  usage : Request
  wanted : List (ℤ × ℕ) → Request

module _ (c : Constants) where
  abbrev pub chosen : Opt → Request
  chosen rr = wanted ((c.sched_rr, 1) ∷ [])
  chosen batch = wanted ((c.sched_batch, 0) ∷ [])
  chosen unknown = usage

  abbrev pub asked : Request → List Opt → Request
  asked before [] = before
  asked before (rr ∷ os) = asked (chosen rr) os
  asked before (batch ∷ os) = asked (chosen batch) os
  asked before (unknown ∷ os) = usage

  -- The three numbers differ, as those of Linux do.
  pub record AreDistinct : Type 0 where
    pub rr_is_set : eqb c.sched_rr minus_one ≡ false
    pub batch_is_set : eqb c.sched_batch minus_one ≡ false
    pub batch_is_not_rr : eqb c.sched_batch c.sched_rr ≡ false

  abbrev pub wish : Request → List (ℤ × ℕ)
  wish usage = []
  wish (wanted ps) = ps

  abbrev pub is_usage : Request → Bool
  is_usage usage = true
  is_usage (wanted ps) = false

  -- The request that a policy stands for.
  abbrev pub request_of : Option ℤ → Request
  request_of none = usage
  request_of (some policy) =
      wanted (if eqb policy minus_one then [] else (policy, priority c policy) ∷ [])

  request_of-take_options :
      AreDistinct
      → (os : List Opt) (policy : ℤ)
      → request_of (take_options c os policy) ≡ asked (request_of (some policy)) os
  unfolding take_options priority
  request_of-take_options d [] policy = refl
  request_of-take_options d (rr ∷ os) policy =
      ground (arith, request_of-take_options d os c.sched_rr, d.rr_is_set, eqb_refl c.sched_rr)
  request_of-take_options d (batch ∷ os) policy =
      ground (arith, request_of-take_options d os c.sched_batch, d.batch_is_set, d.batch_is_not_rr)
  request_of-take_options d (unknown ∷ os) policy = refl

  -- With no option that is unknown, `main` sets the policy of the last option, with priority 1 if that
  -- is SCHED_RR and 0 otherwise, and none without an option; it ends just if some round of its loop
  -- finds the flag set. With an unknown option it ends and sets none.
  pub main-asked :
      AreDistinct
      → (opts : List Opt) (r : Replies)
      → (policies (main c opts r) ≡ wish (asked (wanted []) opts))
        × (exits (main c opts r) ≡ (is_usage (asked (wanted []) opts) || is_told r.g_exit))
  unfolding main set_policy
  main-asked d opts r =
      let want = request_of-take_options d opts minus_one in
      let (ends, quiet) = spin_lem 0 r.g_exit in
      elim (Option-cases (take_options c opts minus_one)) [
        | inl bad ↦ rw (bad, main) ground (arith, want)
        | inr (policy, good) ↦ rw (good, main) ground (arith, want, ends, quiet)
      ]
