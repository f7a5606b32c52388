-- ===== src/FileFds/Tests.antt =====
-- c/filefds/main.c with the three standard descriptors open, and one above the limit.
use study_tips.Base.{
  ℕ, ◌+◌, ◌≡◌, ◌||◌, ◌≤◌, ◌==◌, not, refl, arith, true, false, some, List, [], ◌∷◌, ltb,
}
use study_tips.Base.Int.{pos}
use study_tips.FileFds.{Probe, is_hidden, count_open_files, count_open_files_by_fcntl}
use study_tips.FileFds.Laws.{Table, IsWhole, with_one, listing, counts_agree}

-- One character, from `0` on.
abbrev show : ℕ → List ℕ
show fd = (fd + b'0') ∷ []

show-is_hidden : (fd : ℕ) → is_hidden (show fd) ≡ false
unfolding is_hidden
show-is_hidden fd = ground arith

-- The standard ones, and one above the limit.
abbrev four : Table
four fd = ltb fd 3 || fd == 9

abbrev fcntl4 : ℕ → Probe
fcntl4 fd = record { succeeds = ltb fd 3 || fd == 9; is_bad = true }

fcntl4-Shows : (fd : ℕ) → ((fcntl4 fd).succeeds || not (fcntl4 fd).is_bad) ≡ four fd
fcntl4-Shows fd = ground arith

four-IsWhole : IsWhole four 10
four-IsWhole fd h = ground arith

counts_agree_example :
    ((n : ℕ) → 10 ≤ n → listing show (with_one 3 four) n ≡ listing show (with_one 3 four) 10)
    × (count_open_files (some (listing show (with_one 3 four) 10)) ≡ pos 5)
    × (count_open_files_by_fcntl (some 8) fcntl4 true
        ≡ record { count = pos 3; max_fds = some (pos 8) })
counts_agree_example =
    counts_agree show fcntl4 four 3 8 2 show-is_hidden fcntl4-Shows four-IsWhole refl (omega arith)
      (omega arith)
