-- ===== src/Fgets.antt =====
-- c/fgets/main.c: a parent reads what its child prints through a pipe, and looks whether the child has
-- exited. What is printed, and the child's status, are left out.
pub mod Laws
mod Tests
use study_tips.Base.{ℕ, Bool, true, false, Option, none, some, List, [], ◌∷◌, if◌then◌else◌}
use study_tips.Base.Int.{ℤ, pos, minus_one, is_neg, eqb}
use study_tips.Os.{Run, exit, fault, running, ◌▸◌}

-- The calls, with the kernel's answer at the end.
pub data Call : Type 0 where
  pipe : ℤ → Call
  fork : ℤ → Call
  prctl : Call  -- PR_SET_PDEATHSIG, SIGTERM
  setpgid : Call
  open_null : ℤ → Call  -- "/dev/null"
  dup2 : ℤ → ℤ → Call
  sleep : ℕ → Call
  fflush : ℤ → Call  -- with the stream's descriptor
  close : ℤ → Call
  get_flags : ℤ → Call
  set_nonblock : ℤ → Call
  fdopen : ℤ → Bool → Call  -- whether a stream is returned
  fgets : Bool → Call  -- whether a line is returned
  waitpid : ℤ → Call
  fclose : Call

-- A round of the first loop: no line, or a line and what `waitpid` returns.
pub data Round : Type 0 where
  no_line : Round
  line : ℤ → Round

pub record Replies : Type 0 where
  pub on_pipe : ℤ
  pub read_end : ℤ
  pub write_end : ℤ
  pub on_fork : ℤ
  pub on_open : ℤ
  pub on_fdopen : Bool
  pub on_rounds : List Round
  pub on_left : List Bool  -- of `fgets` in the second loop

-- The child's part.
pub run_child : Replies → Run Call
run_child r =
    prctl
    ▸ setpgid
    ▸ open_null r.on_open
    ▸ (if is_neg r.on_open
        then exit minus_one
        else dup2 r.on_open (pos 0)
          ▸ dup2 r.write_end (pos 1)
          ▸ dup2 r.write_end (pos 2)
          ▸ sleep 10
          ▸ fflush (pos 1)
          ▸ fflush (pos 2)
          ▸ exit (pos 0))

-- `while(chckpid == 0)`, where `next` is a further round and `rest` follows the loop; a `chckpid` that
-- has not been set is `none`.
abbrev pub while_running : Option ℤ → Run Call → Run Call → Run Call
while_running none next rest = fault
while_running (some chckpid) next rest = if eqb chckpid (pos 0) then next else rest

-- The first loop. `continue` goes to the loop's condition.
pub watch : Option ℤ → List Round → Run Call → Run Call
watch chckpid [] rest = running
watch chckpid (no_line ∷ rounds) rest =
    let next = watch chckpid rounds rest in fgets false ▸ while_running chckpid next rest
watch chckpid (line pid ∷ rounds) rest =
    let next = watch (some pid) rounds rest in
    fgets true ▸ waitpid pid ▸ while_running (some pid) next rest

-- The second loop.
pub drain : List Bool → Run Call → Run Call
drain [] rest = running
drain (true ∷ lines) rest = fgets true ▸ drain lines rest
drain (false ∷ lines) rest = fgets false ▸ rest

-- From `fdopen` on.
pub read_output : Replies → Run Call
read_output r =
    fdopen r.read_end r.on_fdopen
    ▸ (if r.on_fdopen
        then watch none r.on_rounds (drain r.on_left (fclose ▸ exit (pos 0)))
        else exit minus_one)

-- The parent's part.
pub run_parent : Bool → Replies → Run Call
run_parent nonblocking r =
    close r.write_end
    ▸ (if nonblocking
        then get_flags r.read_end ▸ set_nonblock r.read_end ▸ read_output r
        else read_output r)

-- `main`; `nonblocking` is whether the program has an argument.
pub main : Bool → Replies → Run Call
main nonblocking r =
    pipe r.on_pipe
    ▸ (if is_neg r.on_pipe
        then exit minus_one
        else fork r.on_fork
          ▸ (if eqb r.on_fork (pos 0) then run_child r else run_parent nonblocking r))
