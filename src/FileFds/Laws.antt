-- ===== src/FileFds/Laws.antt =====
-- The two counts of c/filefds/main.c on one table of descriptors.
use study_tips.Base.{
  ℕ, zero, suc, ◌+◌, ◌<◌, ◌≤◌, ◌^◌, ◌≡◌, refl, ap, ap₂, ◌∙◌, arith, Bool, true, false, not, ◌||◌,
  some, List, [], ◌∷◌, if◌then◌else◌, ◌==◌, ltb,
}
use study_tips.Base.Int.{pos}
use study_tips.FileFds.{
  is_hidden, count_entries, count_open_files, Probe, probe_all, count_open_files_by_fcntl,
}

-- A table says which descriptors are open.
abbrev pub Table : Type 0
Table = ℕ → Bool

-- `fcntl` on a table: a closed descriptor is EBADF, and on an open one the call succeeds or fails otherwise.
abbrev pub Shows : (ℕ → Probe) → Table → Type 0
Shows fcntl table = (fd : ℕ) → ((fcntl fd).succeeds || not (fcntl fd).is_bad) ≡ table fd

-- How many of some descriptors from `fd` on are open.
abbrev pub open_among : Table → ℕ → ℕ → ℕ
open_among table zero fd = 0
open_among table (suc rounds) fd =
    let rest = open_among table rounds (fd + 1) in if table fd then suc rest else rest

-- A table with one descriptor more.
abbrev pub with_one : ℕ → Table → Table
with_one own table fd = fd == own || table fd

-- The names of the open ones, in order, as the directory lists them.
abbrev pub names_among : (ℕ → List ℕ) → Table → ℕ → ℕ → List (List ℕ)
names_among show table zero fd = []
names_among show table (suc rounds) fd =
    let rest = names_among show table rounds (fd + 1) in if table fd then show fd ∷ rest else rest

-- The listing of the descriptors below `top`, with `.` and `..` before the others.
abbrev pub listing : (ℕ → List ℕ) → Table → ℕ → List (List ℕ)
listing show table top = (b'.' ∷ []) ∷ (b'.' ∷ b'.' ∷ []) ∷ names_among show table top 0

-- No descriptor is open from `top` on, so that the listing is the whole directory.
abbrev pub IsWhole : Table → ℕ → Type 0
IsWhole table top = (fd : ℕ) → top ≤ fd → table fd ≡ false

module _ (table : Table) where
  probe_all_lem :
      (fcntl : ℕ → Probe)
      → Shows fcntl table
      → (rounds fd count : ℕ) → probe_all fcntl rounds fd count ≡ count + open_among table rounds fd
  unfolding probe_all
  probe_all_lem fcntl h zero fd count = omega arith
  probe_all_lem fcntl h (suc rounds) fd count = ground (
    arith,
    h fd,
    probe_all_lem fcntl h rounds (fd + 1) count,
    probe_all_lem fcntl h rounds (fd + 1) (count + 1),
  )

  count_entries_lem :
      (show : ℕ → List ℕ)
      → ((fd : ℕ) → is_hidden (show fd) ≡ false)
      → (rounds fd count : ℕ)
      → count_entries (names_among show table rounds fd) count ≡ count + open_among table rounds fd
  unfolding count_entries
  count_entries_lem show h zero fd count = omega arith
  count_entries_lem show h (suc rounds) fd count = ground (
    arith,
    h fd,
    count_entries_lem show h rounds (fd + 1) count,
    count_entries_lem show h rounds (fd + 1) (count + 1),
  )

  -- One descriptor more that was closed is one more that is open, if it is among those looked at.
  open_among-with_one :
      (own : ℕ)
      → table own ≡ false
      → (rounds fd : ℕ)
      → open_among (with_one own table) rounds fd
        ≡ open_among table rounds fd
          + (if ltb own fd then 0 else (if ltb own (fd + rounds) then 1 else 0))
  open_among-with_one own h zero fd = ground arith
  open_among-with_one own h (suc rounds) fd =
      ground (arith, same fd, open_among-with_one own h rounds (fd + 1))
    where
      same : (fd : ℕ) → (fd ≡ own) → table fd ≡ false
      same fd e = rw e h

open_among-split :
    (table : Table) (a b n fd : ℕ)
    → a + b ≡ n
    → open_among table n fd ≡ open_among table a fd + open_among table b (fd + a)
open_among-split table zero b n fd e =
    let whole : n ≡ b = omega arith in
    let start : fd ≡ fd + 0 = omega arith in omega (arith, ap₂ (open_among table) whole start)
open_among-split table (suc a) b zero fd e = absurd (omega arith)
open_among-split table (suc a) b (suc n) fd e =
    let next : open_among table b (fd + 1 + a) ≡ open_among table b (fd + suc a) =
      ap (open_among table b) (omega arith) in
    ground (arith, open_among-split table a b n (fd + 1) (omega arith), next)

-- From `top` on nothing is open, so a longer listing has no more names.
names_among-whole :
    (show : ℕ → List ℕ) (table : Table) (top : ℕ)
    → IsWhole table top
    → (rounds n fd : ℕ) → top ≤ fd + rounds
    → rounds ≤ n
    → names_among show table n fd ≡ names_among show table rounds fd
names_among-whole show table top whole zero zero fd h l = refl
names_among-whole show table top whole zero (suc n) fd h l =
    rw (whole fd (omega arith))
      (names_among-whole show table top whole zero n (fd + 1) (omega arith) (omega arith))
names_among-whole show table top whole (suc rounds) zero fd h l = absurd (omega arith)
names_among-whole show table top whole (suc rounds) (suc n) fd h l =
    let ih = names_among-whole show table top whole rounds n (fd + 1) (omega arith) (omega arith) in
    rw ih refl

listing_lem :
    (show : ℕ → List ℕ) (table : Table) (limit : ℕ)
    → count_entries (listing show table limit) 0 ≡ count_entries (names_among show table limit 0) 0
unfolding count_entries is_hidden
listing_lem show table limit = refl

-- On one table of descriptors, of which any number may be open at the soft limit and above it: if no
-- number is shown with a `.` in front, `fcntl` tells the open ones from the others, and the directory gets
-- a descriptor that was closed and lies below the limit, which is an int: the listing of the whole
-- directory counts the open ones below the limit, those from there on, and the directory's own, and
-- `fcntl` is asked for all descriptors below the limit, which is stored, and counts the open ones there.
pub counts_agree :
    (show : ℕ → List ℕ) (fcntl : ℕ → Probe) (table : Table) (own limit above : ℕ)
    → ((fd : ℕ) → is_hidden (show fd) ≡ false)
    → Shows fcntl table
    → IsWhole table (limit + above)
    → table own ≡ false
    → own < limit
    → limit < 2 ^ 31
    → ((n : ℕ)
        → limit + above ≤ n
        → listing show (with_one own table) n ≡ listing show (with_one own table) (limit + above))
      × (count_open_files (some (listing show (with_one own table) (limit + above)))
          ≡ pos (open_among table limit 0 + open_among table above limit + 1))
      × (count_open_files_by_fcntl (some limit) fcntl true
          ≡ record { count = pos (open_among table limit 0); max_fds = some (pos limit) })
unfolding count_open_files count_open_files_by_fcntl
counts_agree show fcntl table own limit above visible shows whole closed below small =
    let split : open_among table (limit + above) 0
        ≡ open_among table limit 0 + open_among table above limit =
      open_among-split table limit above (limit + above) 0 refl
      ∙ ap (λ fd. open_among table limit 0 + open_among table above fd) (omega arith) in
    (
      λ n le.
          ap (λ names. (b'.' ∷ []) ∷ (b'.' ∷ b'.' ∷ []) ∷ names)
            (names_among-whole show (with_one own table) (limit + above)
              (λ fd h. ground (arith, whole fd h)) (limit + above) n 0 (omega arith) le),
      ap pos (
          ground (
            arith,
            listing_lem show (with_one own table) (limit + above),
            count_entries_lem (with_one own table) show visible (limit + above) 0 0,
            open_among-with_one table own closed (limit + above) 0,
            split,
          )),
      ground (arith, probe_all_lem table fcntl shows limit 0 0),
    )
