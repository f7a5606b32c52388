-- ===== src/Fgets/Laws.antt =====
-- When the loops of c/fgets/main.c end.
use study_tips.Base.{
  zero, suc, ◌≡◌, refl, arith, Bool, true, false, not, ◌&&◌, ◌||◌, none, some, List, [], ◌∷◌,
  if◌then◌else◌,
}
use study_tips.Base.Int.{pos, negsuc, is_neg, eqb}
use study_tips.Os.{Run, exit, exits, ◌▸◌}
use study_tips.Fgets.{
  Call, Round, no_line, line, Replies, fclose, run_child, watch, drain, read_output, run_parent,
  main,
}

-- The first `fgets` returns a line.
abbrev pub starts_with_line : List Round → Bool
starts_with_line [] = false
starts_with_line (no_line ∷ rounds) = false
starts_with_line (line pid ∷ rounds) = true

-- In some round a line is read and `waitpid` then does not return 0.
abbrev pub sees_exit : List Round → Bool
sees_exit [] = false
sees_exit (no_line ∷ rounds) = sees_exit rounds
sees_exit (line pid ∷ rounds) = not (eqb pid (pos 0)) || sees_exit rounds

abbrev pub has_end : List Bool → Bool
has_end [] = false
has_end (got ∷ lines) = not got || has_end lines

-- With a child that runs, further rounds end when one sees its exit.
exits-watch_running :
    (rounds : List Round) (rest : Run Call)
    → exits (watch (some (pos 0)) rounds rest) ≡ (sees_exit rounds && exits rest)
unfolding watch
exits-watch_running [] rest = refl
exits-watch_running (no_line ∷ rounds) rest = exits-watch_running rounds rest
exits-watch_running (line (pos zero) ∷ rounds) rest = exits-watch_running rounds rest
exits-watch_running (line (pos (suc n)) ∷ rounds) rest = ground arith
exits-watch_running (line (negsuc n) ∷ rounds) rest = ground arith

exits-watch :
    (rounds : List Round) (rest : Run Call)
    → exits (watch none rounds rest) ≡ (starts_with_line rounds && (sees_exit rounds && exits rest))
unfolding watch
exits-watch [] rest = refl
exits-watch (no_line ∷ rounds) rest = refl
exits-watch (line (pos zero) ∷ rounds) rest = exits-watch_running rounds rest
exits-watch (line (pos (suc n)) ∷ rounds) rest = ground arith
exits-watch (line (negsuc n) ∷ rounds) rest = ground arith

exits-drain :
    (lines : List Bool) (rest : Run Call) → exits (drain lines rest) ≡ (has_end lines && exits rest)
unfolding drain
exits-drain [] rest = refl
exits-drain (true ∷ lines) rest = exits-drain lines rest
exits-drain (false ∷ lines) rest = refl

-- A run in the child, or one in which the pipe or the stream cannot be had, exits. Any other exits
-- just if the first `fgets` returns a line, `waitpid` reports something after some line, and a
-- later `fgets` returns none.
pub fgets_exits :
    (nonblocking : Bool) (r : Replies)
    → exits (main nonblocking r) ≡ (
        if is_neg r.on_pipe || (eqb r.on_fork (pos 0) || not r.on_fdopen)
        then true
        else starts_with_line r.on_rounds && (sees_exit r.on_rounds && has_end r.on_left))
unfolding main run_child run_parent read_output
fgets_exits nonblocking r = ground (
  arith,
  exits-watch r.on_rounds (drain r.on_left (fclose ▸ exit (pos 0))),
  exits-drain r.on_left (fclose ▸ exit (pos 0)),
)
