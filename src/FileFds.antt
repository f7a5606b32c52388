-- ===== src/FileFds.antt =====
-- c/filefds/main.c: how many descriptors a process has open, from its directory in /proc and by `fcntl`.
-- The kernel's answers are parameters. What is printed is left out.
pub mod Laws
mod Tests
use study_tips.Base.{
  ℕ, zero, suc, ◌+◌, ◌-◌, ◌^◌, ◌%◌, Bool, true, false, ◌||◌, not, Option, none, some, List, [], ◌∷◌,
  if◌then◌else◌, ltb, ◌==◌,
}
use study_tips.Base.Int.{ℤ, pos, negsuc, minus_one, to_int}
use study_tips.Base.Word.{u32}

-- `entry->d_name[0] == '.'`; a name that has ended has a 0 there.
pub is_hidden : List ℕ → Bool
is_hidden [] = false
is_hidden (c ∷ cs) = c == b'.'

-- The loop on `readdir`, with the names that it returns, and `count`.
pub count_entries : List (List ℕ) → ℕ → ℕ
count_entries [] count = count
count_entries (name ∷ names) count =
    let counted = count_entries names (count + 1) in
    let skipped = count_entries names count in if is_hidden name then skipped else counted

-- `none` is an `opendir` that fails.
pub count_open_files : Option (List (List ℕ)) → ℤ
count_open_files none = minus_one
count_open_files (some names) = pos (count_entries names 0)

-- The rounds of a loop from 0 that stays below a number.
abbrev pub rounds_below : ℤ → ℕ
rounds_below (pos n) = n
rounds_below (negsuc n) = 0

-- What `fcntl(fd, F_GETFD)` answers: whether it is not -1, and whether errno is EBADF.
pub record Probe : Type 0 where
  pub succeeds : Bool
  pub is_bad : Bool

-- The loop on `fd`, with the rounds that are left, and `count`.
pub probe_all : (ℕ → Probe) → ℕ → ℕ → ℕ → ℕ
probe_all fcntl zero fd count = count
probe_all fcntl (suc rounds) fd count =
    let p = fcntl fd in
    let counted = probe_all fcntl rounds (fd + 1) (count + 1) in
    let skipped = probe_all fcntl rounds (fd + 1) count in
    if p.succeeds || not p.is_bad then counted else skipped

-- What is returned, and what is stored behind `maxfds`, if that is not NULL.
pub record Counted : Type 0 where
  pub count : ℤ
  pub max_fds : Option ℤ

abbrev pub stored : Bool → ℤ → Option ℤ
stored true n = some n
stored false n = none

-- With the soft limit, or `none` when `getrlimit` fails; `wanted` is whether `maxfds` is not NULL.
pub count_open_files_by_fcntl : Option ℕ → (ℕ → Probe) → Bool → Counted
count_open_files_by_fcntl none fcntl wanted = record {
  count = pos 0xFFFFF;
  max_fds = stored wanted (pos 0xFFFFF);
}
count_open_files_by_fcntl (some limit) fcntl wanted = record {
  count = pos (probe_all fcntl (rounds_below (to_int limit)) 0 0);
  max_fds = stored wanted (to_int limit);
}
