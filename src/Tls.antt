-- ===== src/Tls.antt =====
-- c++/tls/main.cpp: two threads with variables of their own, which write to one stream.
-- A step is a statement; what one statement prints is taken as a whole.
pub mod Laws
pub mod Runs
mod Tests
use study_tips.Base.{ℕ, ◌+◌, ◌≡◌, ◌≢◌, Bool, true, false, Option, none, some, List, [], ◌∷◌, ◌++◌}
use study_tips.Base.Int.{ℤ, pos, to_int}

pub data Name : Type 0 where
  thread1 thread2 : Name

-- The statement of `threadFunction` that comes next.
pub data At : Type 0 where
  at_set at_endl at_var at_pointer at_set_var at_set_pointer finished : At

-- A thread with its `threadLocalVar` and `threadLocalPointer`.
pub record Thread : Type 0 where
  pub name : Name
  pub at : At
  pub var : ℤ
  pub pointer : ℕ

-- What one statement prints.
pub data Text : Type 0 where
  endl : Text
  var_is : ℤ → Text
  pointer_is : ℕ → Text

-- The variables of a thread start at zero.
abbrev pub new_thread : Name → Thread
new_thread name = record { name = name; at = at_set; var = pos 0; pointer = 0 }

-- What a statement does to the thread.
module _ (hash : Name → ℕ) where
  pub advance : Thread → At → Thread
  advance t at_set = record t { at = at_endl; var = to_int (hash t.name) }
  advance t at_endl = record t { at = at_var }
  advance t at_var = record t { at = at_pointer }
  advance t at_pointer = record t { at = at_set_var }
  advance t at_set_var = record t { at = at_set_pointer; var = pos 12345 }
  advance t at_set_pointer = record t { at = finished; pointer = 54321 }
  advance t finished = t

  -- `threadFunction`, one statement of it.
  abbrev pub thread_function : Thread → Thread
  thread_function t = advance t t.at

-- What the statement prints.
pub prints : Thread → At → List Text
prints t at_set = []
prints t at_endl = endl ∷ []
prints t at_var = var_is t.var ∷ []
prints t at_pointer = pointer_is t.pointer ∷ []
prints t at_set_var = []
prints t at_set_pointer = []
prints t finished = []

-- Where `main` is: what it has done last.
pub data MainAt : Type 0 where
  started spawned1 spawned2 joined1 joined2 returned : MainAt

-- The process, with the stream that both threads write to.
pub record Process : Type 0 where
  pub main_at : MainAt
  pub t1 : Thread
  pub t2 : Thread
  pub out : List (Name × Text)

abbrev pub start : Process
start = record { main_at = started; t1 = new_thread thread1; t2 = new_thread thread2; out = [] }

abbrev pub signed : Name → List Text → List (Name × Text)
signed name [] = []
signed name (x ∷ xs) = (name, x) ∷ signed name xs

-- The stream behind the next statement of a thread.
abbrev pub printed : Process → Thread → List (Name × Text)
printed p t = p.out ++ signed t.name (prints t t.at)

abbrev pub has_spawned1 : MainAt → Bool
has_spawned1 started = false
has_spawned1 spawned1 = true
has_spawned1 spawned2 = true
has_spawned1 joined1 = true
has_spawned1 joined2 = true
has_spawned1 returned = true

abbrev pub has_spawned2 : MainAt → Bool
has_spawned2 started = false
has_spawned2 spawned1 = false
has_spawned2 spawned2 = true
has_spawned2 joined1 = true
has_spawned2 joined2 = true
has_spawned2 returned = true

-- One statement of `main` or of a thread, in any order that `spawn` and `join` allow.
pub data Step (hash : Name → ℕ) (p : Process) : Process → Type 0 where
  spawn1 : p.main_at ≡ started → Step hash p (record p { main_at = spawned1 })
  spawn2 : p.main_at ≡ spawned1 → Step hash p (record p { main_at = spawned2 })
  run1 :
      has_spawned1 p.main_at ≡ true
      → p.t1.at ≢ finished
      → Step hash p (record p { t1 = thread_function hash p.t1; out = printed p p.t1 })
  run2 :
      has_spawned2 p.main_at ≡ true
      → p.t2.at ≢ finished
      → Step hash p (record p { t2 = thread_function hash p.t2; out = printed p p.t2 })
  join1 : p.main_at ≡ spawned2 → p.t1.at ≡ finished → Step hash p (record p { main_at = joined1 })
  join2 : p.main_at ≡ joined1 → p.t2.at ≡ finished → Step hash p (record p { main_at = joined2 })
  leave : p.main_at ≡ joined2 → Step hash p (record p { main_at = returned })

-- The runs of so many steps.
pub data Reach (hash : Name → ℕ) : ℕ → Process → Type 0 where
  here : Reach hash 0 start
  next : {n : ℕ} {p q : Process} → Reach hash n p → Step hash p q → Reach hash (n + 1) q
