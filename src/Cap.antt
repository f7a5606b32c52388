-- ===== src/Cap.antt =====
-- c/cap/main.c: a parent and its child each try to open a raw SCTP socket.
pub mod Laws
pub mod Usage
use study_tips.Base.{ℕ, zero, suc, ◌==◌, ◌||◌, Option, none, some, List, [], ◌∷◌, if◌then◌else◌}
use study_tips.Base.Int.{ℤ, pos, is_neg, eqb}
use study_tips.Header.Memory.{◌>>=◌}
use study_tips.Os.{Run, exit, running, ◌▸◌, Descriptors}

-- The calls, with the kernel's answer at the end.
pub data Call : Type 0 where
  fork : ℤ → Call
  socket : ℤ → Call
  close : ℤ → Call
  sleep : ℕ → Call
  getchar : Call

abbrev pub opened : Call → Option ℤ
opened (socket fd) = if is_neg fd then none else some fd
opened _ = none

abbrev pub closed : Call → Option ℤ
closed (close fd) = some fd
closed _ = none

instance abbrev pub call_descriptors : Descriptors Call
call_descriptors = record { opened = opened; closed = closed }

pub record Flags : Type 0 where
  pub service_flag : ℕ
  pub a_flag_value : ℤ

-- What `getopt` returns for one option.
pub data Opt : Type 0 where
  service unknown : Opt
  a_value : List ℕ → Opt

module _ (atoi : List ℕ → ℤ) where
  pub take_option : Opt → Flags → Option Flags
  take_option service f = some (record f { service_flag = 1 })
  take_option (a_value text) f = some (record f { a_flag_value = atoi text })
  take_option unknown f = none

  -- The loop on `getopt`; `none` is the exit with the usage text.
  pub take_options : List Opt → Flags → Option Flags
  take_options [] f = some f
  take_options (o ∷ os) f = take_option o f >>= take_options os

-- `while (1)`, as many rounds of it as there is time for.
pub serve : ℕ → Run Call
serve zero = running
serve (suc rounds) = sleep 1 ▸ serve rounds

-- From the label `wait` on.
pub wait : ℕ → Flags → ℤ → Run Call
wait rounds f pid =
    if f.service_flag == 0
    then (if eqb pid (pos 0) then exit (pos 0) else sleep 1 ▸ getchar ▸ exit (pos 0))
    else (if eqb pid (pos 0) then exit (pos 0) else serve rounds)

-- From `fork` on, in one of the two processes, by what `fork` returns there.
pub run_with : ℕ → Flags → ℤ → ℤ → Run Call
run_with rounds f pid fd =
    fork pid
    ▸ socket fd
    ▸ (if is_neg fd || eqb fd (pos 0) then wait rounds f pid else close fd ▸ wait rounds f pid)

abbrev pub default_flags : Flags
default_flags = record { service_flag = 0; a_flag_value = pos 0 }

-- `main`, by the rounds that there is time for, the options, and what `fork` and `socket` return.
pub main : (List ℕ → ℤ) → ℕ → List Opt → ℤ → ℤ → Run Call
main atoi rounds opts pid fd = elim (take_options atoi opts default_flags) [
  | none ↦ exit (pos 1)
  | some f ↦ run_with rounds f pid fd
]
