-- ===== src/Fgets/Tests.antt =====
-- c/fgets/main.c at concrete answers.
use study_tips.Base.{◌≡◌, true, false, [], ◌∷◌}
use study_tips.Base.Int.{pos}
use study_tips.Os.{exits}
use study_tips.Fgets.{Replies, no_line, line, main}
use study_tips.Fgets.Laws.{fgets_exits}

-- The child's last line is read while it still runs.
abbrev replies : Replies
replies = record {
  on_pipe = pos 0;
  read_end = pos 3;
  write_end = pos 4;
  on_fork = pos 77;
  on_open = pos 5;
  on_fdopen = true;
  on_rounds = line (pos 0) ∷ no_line ∷ no_line ∷ no_line ∷ [];
  on_left = false ∷ [];
}

fgets_exits_example : exits (main false replies) ≡ false
fgets_exits_example = fgets_exits false replies
