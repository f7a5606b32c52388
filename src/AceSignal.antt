-- ===== src/AceSignal.antt =====
-- ace/signal/main.cpp: threads that run into a signal, whose handler shows the stack and ends them.
-- What ACE and `backtrace` answer are parameters, but that its handlers are registered and its threads
-- created; the texts of the log, and the timer, which only writes to it, are left out.
pub mod Laws
mod Tests
use study_tips.Base.{
  ℕ, zero, suc, ◌+◌, Bool, true, false, ◌||◌, Option, none, some, List, [], ◌∷◌, get_elem?,
  if◌then◌else◌, ◌==◌,
}
use study_tips.Base.Int.{pos, minus_one}
use study_tips.Os.{Run, exit, fault, running, ◌▸◌}

pub data Signum : Type 0 where
  sigfpe sigsegv : Signum

-- What a thread does: lines of the log, `free`, and a signal that ends the whole process.
pub data Event : Type 0 where
  begins : ℕ → Event  -- with `para`
  produces : Signum → Event
  receives : Signum → Event
  returned : ℕ → Event  -- the addresses of `backtrace`
  shows : List ℕ → Event  -- a string of `backtrace_symbols`
  frees : Event
  leaves_handler : Event
  killed : Signum → Event

-- The answers to one thread: how many addresses `backtrace` finds, and the strings of
-- `backtrace_symbols`, or `none` for NULL.
pub record Trace : Type 0 where
  pub nptrs : ℕ
  pub strings : Option (List (List ℕ))

-- `for (int j = 0; j < nptrs; j++)`, with the rounds that are left, and what follows.
pub show_all : List (List ℕ) → (rounds j : ℕ) → Run Event → Run Event
show_all strings zero j rest = rest
show_all strings (suc rounds) j rest =
    let further = show_all strings rounds (j + 1) rest in
    elim (get_elem? strings j) [ none ↦ fault | some text ↦ shows text ▸ further ]

-- `ACE_Thread::exit` is the exit of a run.
pub dump_stack_use_backtrace : Trace → Run Event → Run Event
dump_stack_use_backtrace t rest = returned t.nptrs ▸ elim t.strings [
  | none ↦ exit (pos 0)
  | some strings ↦ show_all strings t.nptrs 0 (frees ▸ rest)
]

pub handle_signal : Trace → Signum → Run Event
handle_signal t signum =
    receives signum ▸ dump_stack_use_backtrace t (leaves_handler ▸ exit (pos 0))

-- `dispatches registered signum` is whether the reactor calls the handler of a thread's signal, with the
-- signals that have been registered; if not, the signal ends the process.
module _ (dispatches : List Signum → Signum → Bool) where
  pub raise : List Signum → Trace → Signum → Run Event
  raise registered t signum =
      if dispatches registered signum
      then handle_signal t signum
      else killed signum ▸ exit minus_one

  -- The division by zero, and the read through a null pointer.
  pub produce_fpe_exception : List Signum → Trace → Run Event
  produce_fpe_exception registered t = produces sigfpe ▸ raise registered t sigfpe

  pub produce_sig_segv_exception : List Signum → Trace → Run Event
  produce_sig_segv_exception registered t = produces sigsegv ▸ raise registered t sigsegv

  pub child_thread_func : List Signum → Trace → ℕ → Run Event
  child_thread_func registered t para =
      begins para
      ▸ (if para == 0
          then produce_fpe_exception registered t
          else produce_sig_segv_exception registered t)

-- The calls of `main`, and the runs of the threads that it has spawned.
pub data Call : Type 0 where
  register_handler : Signum → Call
  schedule_timer : ℕ → Call  -- with the seconds
  spawn : ℕ → Run Event → Call
  sleep : ℕ → Call
  run_reactor_event_loop : Call

-- The rounds of `while (!r->reactor_event_loop_done())`, by its answers.
pub event_loop : List Bool → Run Call
event_loop [] = running
event_loop (is_done ∷ answers) =
    let rest = event_loop answers in if is_done then exit (pos 0) else run_reactor_event_loop ▸ rest

module _ (dispatches : List Signum → Signum → Bool) where
  -- `registered` is what has been registered so far.
  pub spawn_children : List Signum → Trace → Trace → List Bool → Run Call
  spawn_children registered t0 t1 answers =
      spawn 0 (child_thread_func dispatches registered t0 0)
      ▸ sleep 1
      ▸ spawn 1 (child_thread_func dispatches registered t1 1)
      ▸ event_loop answers

  pub main : Trace → Trace → List Bool → Run Call
  main t0 t1 answers =
      register_handler sigfpe
      ▸ register_handler sigsegv
      ▸ schedule_timer 5
      ▸ spawn_children (sigsegv ∷ sigfpe ∷ []) t0 t1 answers
