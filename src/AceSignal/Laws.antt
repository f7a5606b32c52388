-- ===== src/AceSignal/Laws.antt =====
-- How the threads of ace/signal/main.cpp end, and how `main` does.
use study_tips.Base.{
  ℕ, zero, suc, ◌+◌, ◌≡◌, ◌⊎◌, inl, inr, refl, sym, ap, ◌∙◌, arith, Bool, true, false, ◌||◌, Option,
  none, some, List, [], ◌∷◌, ◌++◌, map, length, if◌then◌else◌, ◌==◌,
}
use study_tips.Base.Int.{pos}
use study_tips.Os.{Run, exit, fault, running, ◌▸◌, status, exits}
use study_tips.AceSignal.{
  Signum, sigfpe, sigsegv, Event, begins, produces, receives, returned, shows, frees,
  leaves_handler, Trace, show_all, dump_stack_use_backtrace, handle_signal, raise,
  produce_fpe_exception, produce_sig_segv_exception, child_thread_func, Call, register_handler,
  schedule_timer, spawn, sleep, run_reactor_event_loop, event_loop, spawn_children, main,
}

-- What a run does.
abbrev pub events : {E : Type 0} → Run E → List E
events (exit c) = []
events fault = []
events running = []
events (e ▸ r) = e ∷ events r

-- As `backtrace_symbols` promises, there is a string for each address, if there are strings at all.
abbrev pub IsTrace : Trace → Type 0
IsTrace t = (strings : List (List ℕ)) → t.strings ≡ some strings → length strings ≡ t.nptrs

show_all-shift :
    (text : List ℕ) (strings : List (List ℕ)) (rounds j : ℕ) (rest : Run Event)
    → show_all (text ∷ strings) rounds (suc j) rest ≡ show_all strings rounds j rest
unfolding show_all
show_all-shift text strings zero j rest = refl
show_all-shift text strings (suc rounds) j rest =
    ground (arith, show_all-shift text strings rounds (j + 1) rest)

-- A run behind lines of the log.
abbrev pub shown : List (List ℕ) → Run Event → Run Event
shown [] rest = rest
shown (text ∷ strings) rest = shows text ▸ shown strings rest

show_all-shown :
    (strings : List (List ℕ)) (rest : Run Event)
    → show_all strings (length strings) 0 rest ≡ shown strings rest
unfolding show_all
show_all-shown [] rest = refl
show_all-shown (text ∷ strings) rest =
    ap (λ r. shows text ▸ r)
      (show_all-shift text strings (length strings) 0 rest ∙ show_all-shown strings rest)

-- What the handler does behind its first two lines: it shows and frees what `backtrace_symbols` has
-- returned and is left; without that the thread ends at once.
abbrev pub handled_by : Option (List (List ℕ)) → Run Event
handled_by none = exit (pos 0)
handled_by (some strings) = shown strings (frees ▸ leaves_handler ▸ exit (pos 0))

handle_signal-handled :
    (t : Trace) (strings : Option (List (List ℕ))) (signum : Signum)
    → t.strings ≡ strings
    → IsTrace t
    → handle_signal t signum ≡ receives signum ▸ returned t.nptrs ▸ handled_by strings
unfolding handle_signal dump_stack_use_backtrace
handle_signal-handled t none signum e h = rw e refl
handle_signal-handled t (some strings) signum e h =
    let all = show_all-shown strings (frees ▸ leaves_handler ▸ exit (pos 0)) in
    rw (e, sym (h strings e), all) refl

-- The same, as what is done.
abbrev pub done_by : Option (List (List ℕ)) → List Event
done_by none = []
done_by (some strings) = map shows strings ++ (frees ∷ leaves_handler ∷ [])

-- A thread that begins with `para`, runs into a signal, handles it and ends.
pub record HasEnded (t : Trace) (para : ℕ) (signum : Signum) (r : Run Event) : Type 0 where
  pub ends : status r ≡ some (pos 0)
  pub does :
      events r
      ≡ begins para ∷ produces signum ∷ receives signum ∷ returned t.nptrs ∷ done_by t.strings

handled_lem :
    (strings : Option (List (List ℕ)))
    → (status (handled_by strings) ≡ some (pos 0)) × (events (handled_by strings) ≡ done_by strings)
handled_lem none = (refl, refl)
handled_lem (some []) = (refl, refl)
handled_lem (some (text ∷ strings)) =
    let ih = handled_lem (some strings) in ground (arith, ih.0, ih.1)

-- The signals that `main` has registered when it spawns.
abbrev pub both : List Signum
both = sigsegv ∷ sigfpe ∷ []

abbrev pub IsIn : Signum → List Signum → Type 0
IsIn signum [] = ⊥
IsIn signum (s ∷ registered) = (s ≡ signum) ⊎ IsIn signum registered

-- A handler that has been registered is called, as ACE_Reactor promises.
abbrev pub CallsRegistered : (List Signum → Signum → Bool) → Type 0
CallsRegistered dispatches =
    (registered : List Signum) (signum : Signum)
    → IsIn signum registered
    → dispatches registered signum ≡ true

abbrev pub cause : ℕ → Signum
cause para = if para == 0 then sigfpe else sigsegv

both-IsIn : (signum : Signum) → IsIn signum both
both-IsIn sigfpe = inr (inl refl)
both-IsIn sigsegv = inl refl

raise-both :
    (dispatches : List Signum → Signum → Bool)
    → CallsRegistered dispatches
    → (t : Trace) (signum : Signum) → raise dispatches both t signum ≡ handle_signal t signum
unfolding raise
raise-both dispatches calls t signum = rw (calls both signum (both-IsIn signum)) refl

child_thread_func-HasEnded :
    (dispatches : List Signum → Signum → Bool)
    → CallsRegistered dispatches
    → (t : Trace) (para : ℕ) → IsTrace t
    → HasEnded t para (cause para) (child_thread_func dispatches both t para)
unfolding child_thread_func produce_fpe_exception produce_sig_segv_exception
child_thread_func-HasEnded dispatches calls t para h =
    let (ends, does) = handled_lem t.strings in
    let run : child_thread_func dispatches both t para
        ≡ begins para
          ▸ produces (cause para)
          ▸ receives (cause para)
          ▸ returned t.nptrs
          ▸ handled_by t.strings =
      ground (
        arith,
        raise-both dispatches calls t sigfpe,
        raise-both dispatches calls t sigsegv,
        handle_signal-handled t t.strings sigfpe refl h,
        handle_signal-handled t t.strings sigsegv refl h,
      ) in
    rw run record {
      ends = ends;
      does =
          ap
            (λ es.
              begins para ∷ produces (cause para) ∷ receives (cause para) ∷ returned t.nptrs ∷ es)
            does;
    }

-- The threads that a run of `main` spawns, with their parameters.
abbrev pub spawned : Run Call → List (ℕ × Run Event)
spawned (exit c) = []
spawned fault = []
spawned running = []
spawned (register_handler signum ▸ r) = spawned r
spawned (schedule_timer delay ▸ r) = spawned r
spawned (spawn para child ▸ r) = (para, child) ∷ spawned r
spawned (sleep time ▸ r) = spawned r
spawned (run_reactor_event_loop ▸ r) = spawned r

abbrev pub any : List Bool → Bool
any [] = false
any (b ∷ bs) = b || any bs

event_loop_lem :
    (answers : List Bool)
    → (exits (event_loop answers) ≡ any answers) × (spawned (event_loop answers) ≡ [])
unfolding event_loop
event_loop_lem [] = (refl, refl)
event_loop_lem (a ∷ answers) = ground (arith, event_loop_lem answers)

pub record IsMain (t0 t1 : Trace) (answers : List Bool) (r : Run Call) : Type 0 where
  pub first : Run Event
  pub second : Run Event
  pub two_spawned : spawned r ≡ (0, first) ∷ (1, second) ∷ []
  pub first_ended : HasEnded t0 0 sigfpe first
  pub second_ended : HasEnded t1 1 sigsegv second
  pub ends : exits r ≡ any answers

-- If the reactor calls the handlers that have been registered, and `backtrace_symbols` has returned a
-- string for each address or NULL, `main` spawns two threads. The first runs into SIGFPE and the second into SIGSEGV; each handles its signal, shows every string once in
-- order, frees them, leaves the handler and ends, or ends without strings. `main` ends just if the reactor
-- says at some time that its loop is done.
pub main-IsMain :
    (dispatches : List Signum → Signum → Bool)
    → CallsRegistered dispatches
    → (t0 t1 : Trace) → IsTrace t0
    → IsTrace t1
    → (answers : List Bool) → IsMain t0 t1 answers (main dispatches t0 t1 answers)
unfolding main spawn_children
main-IsMain dispatches calls t0 t1 h0 h1 answers =
    let (ends, none_else) = event_loop_lem answers in
    record {
      first = child_thread_func dispatches both t0 0;
      second = child_thread_func dispatches both t1 1;
      two_spawned = rw none_else refl;
      first_ended = child_thread_func-HasEnded dispatches calls t0 0 h0;
      second_ended = child_thread_func-HasEnded dispatches calls t1 1 h1;
      ends = ends;
    }
