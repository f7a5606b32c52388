-- ===== src/Tls/Runs.antt =====
-- Every run of c++/tls/main.cpp.
use study_tips.Base.{ℕ, ◌+◌, ◌≤◌, ◌<◌, ◌≡◌, ◌≢◌, refl, ap, arith, ◌⊎◌, inl, inr}
use study_tips.Tls.{
  Name, thread1, thread2, At, at_set, at_endl, at_var, at_pointer, at_set_var, at_set_pointer,
  finished, Thread, advance, prints, MainAt, started, spawned1, spawned2, joined1, joined2,
  returned, Process, start, Step, has_spawned1, has_spawned2, spawn1, spawn2, run1, run2, join1,
  join2, leave, Reach, here, next,
}
use study_tips.Tls.Laws.{lines_of, whole, IsAlone, new_thread-IsAlone, own_step, other_step}

-- How far `main` and a thread are.
abbrev main_steps : MainAt → ℕ
main_steps started = 0
main_steps spawned1 = 1
main_steps spawned2 = 2
main_steps joined1 = 3
main_steps joined2 = 4
main_steps returned = 5

abbrev thread_steps : At → ℕ
thread_steps at_set = 0
thread_steps at_endl = 1
thread_steps at_var = 2
thread_steps at_pointer = 3
thread_steps at_set_var = 4
thread_steps at_set_pointer = 5
thread_steps finished = 6

is_finished : (at : At) → (at ≡ finished) ⊎ (at ≢ finished) × (thread_steps at < 6)
is_finished at_set = inr (λ e. absurd (cc e), omega arith)
is_finished at_endl = inr (λ e. absurd (cc e), omega arith)
is_finished at_var = inr (λ e. absurd (cc e), omega arith)
is_finished at_pointer = inr (λ e. absurd (cc e), omega arith)
is_finished at_set_var = inr (λ e. absurd (cc e), omega arith)
is_finished at_set_pointer = inr (λ e. absurd (cc e), omega arith)
is_finished finished = inl refl

thread_bound : (at : At) → thread_steps at ≤ 6
thread_bound at = elim (is_finished at) [
  | inl e ↦ ground (arith, e)
  | inr (_, l) ↦ omega (arith, l)
]

main_bound : (at : MainAt) → main_steps at ≤ 5
main_bound at = ground arith

module _ (hash : Name → ℕ) where
  advance-further :
      (t : Thread) (at : At)
      → at ≢ finished
      → thread_steps (advance hash t at).at ≡ thread_steps at + 1
  unfolding advance
  advance-further t at_set h = refl
  advance-further t at_endl h = refl
  advance-further t at_var h = refl
  advance-further t at_pointer h = refl
  advance-further t at_set_var h = refl
  advance-further t at_set_pointer h = refl
  advance-further t finished h = absurd (h refl)

  -- What holds after any `n` steps.
  record Inv (n : ℕ) (p : Process) : Type 0 where
    first : IsAlone hash thread1 p.t1 p.out
    second : IsAlone hash thread2 p.t2 p.out
    counted : n ≡ main_steps p.main_at + thread_steps p.t1.at + thread_steps p.t2.at
    first_joined : 3 ≤ main_steps p.main_at → p.t1.at ≡ finished
    second_joined : 4 ≤ main_steps p.main_at → p.t2.at ≡ finished

  start-Inv : Inv 0 start
  start-Inv = record {
    first = new_thread-IsAlone hash thread1;
    second = new_thread-IsAlone hash thread2;
    counted = refl;
    first_joined = λ h. absurd (omega arith);
    second_joined = λ h. absurd (omega arith);
  }

  step-Inv : {n : ℕ} {p q : Process} → Inv n p → Step hash p q → Inv (n + 1) q
  step-Inv {n} {p} i (spawn1 h) = record {
    first = i.first;
    second = i.second;
    counted = ground (arith, i.counted, h);
    first_joined = λ l. absurd (omega arith);
    second_joined = λ l. absurd (omega arith);
  }
  step-Inv {n} {p} i (spawn2 h) = record {
    first = i.first;
    second = i.second;
    counted = ground (arith, i.counted, h);
    first_joined = λ l. absurd (omega arith);
    second_joined = λ l. absurd (omega arith);
  }
  step-Inv {n} {p} i (run1 h not_done) = record {
    first = own_step hash thread1 p.t1 p.out i.first;
    second =
        other_step hash thread2 thread1 p.t2 p.t1 p.out (prints p.t1 p.t1.at) refl i.first.named
          i.second;
    counted = omega (arith, i.counted, advance-further p.t1 p.t1.at not_done);
    first_joined = λ l. absurd (not_done (i.first_joined l));
    second_joined = i.second_joined;
  }
  step-Inv {n} {p} i (run2 h not_done) = record {
    first =
        other_step hash thread1 thread2 p.t1 p.t2 p.out (prints p.t2 p.t2.at) refl i.second.named
          i.first;
    second = own_step hash thread2 p.t2 p.out i.second;
    counted = omega (arith, i.counted, advance-further p.t2 p.t2.at not_done);
    first_joined = i.first_joined;
    second_joined = λ l. absurd (not_done (i.second_joined l));
  }
  step-Inv {n} {p} i (join1 h done) = record {
    first = i.first;
    second = i.second;
    counted = ground (arith, i.counted, h);
    first_joined = λ l. done;
    second_joined = λ l. absurd (omega arith);
  }
  step-Inv {n} {p} i (join2 h done) = record {
    first = i.first;
    second = i.second;
    counted = ground (arith, i.counted, h);
    first_joined = λ l. i.first_joined (ground (arith, h));
    second_joined = λ l. done;
  }
  step-Inv {n} {p} i (leave h) = record {
    first = i.first;
    second = i.second;
    counted = ground (arith, i.counted, h);
    first_joined = λ l. i.first_joined (ground (arith, h));
    second_joined = λ l. i.second_joined (ground (arith, h));
  }

  reach-Inv : {n : ℕ} {p : Process} → Reach hash n p → Inv n p
  reach-Inv here = start-Inv
  reach-Inv (next r s) = step-Inv (reach-Inv r) s

  -- A step that can be made.
  abbrev pub CanStep : Process → Type 0
  CanStep p = (q : Process) × Step hash p q

  waits-CanStep :
      {n : ℕ} (p : Process) (at : MainAt)
      → p.main_at ≡ at
      → Inv n p
      → (at ≡ returned) ⊎ (main_steps at < 5) × CanStep p
  waits-CanStep p started e i = inr (omega arith, (_, spawn1 e))
  waits-CanStep p spawned1 e i = inr (omega arith, (_, spawn2 e))
  waits-CanStep p spawned2 e i = elim (is_finished p.t1.at) [
    | inl done ↦ inr (omega arith, (_, join1 e done))
    | inr (more, _) ↦ inr (omega arith, (_, run1 (ap has_spawned1 e) more))
  ]
  waits-CanStep p joined1 e i = elim (is_finished p.t2.at) [
    | inl done ↦ inr (omega arith, (_, join2 e done))
    | inr (more, _) ↦ inr (omega arith, (_, run2 (ap has_spawned2 e) more))
  ]
  waits-CanStep p joined2 e i = inr (omega arith, (_, leave e))
  waits-CanStep p returned e i = inl refl

  -- What holds after `n` steps.
  pub record IsRun (n : ℕ) (p : Process) : Type 0 where
    pub first : IsAlone hash thread1 p.t1 p.out
    pub second : IsAlone hash thread2 p.t2 p.out
    pub bound : n ≤ 17
    pub ends :
        ((p.main_at ≡ returned)
          × (n ≡ 17)
          × (lines_of thread1 p.out ≡ whole hash thread1)
          × (lines_of thread2 p.out ≡ whole hash thread2))
        ⊎ (n < 17) × CanStep p

  -- In every order of the statements, each thread has its variables and its lines as if it ran alone: its
  -- variable is its own hash as an int until it sets it to 12345, and the pointer that it prints is null,
  -- whatever the other has stored. A run can go on until it has made 17 steps; then `main` has returned,
  -- and both threads have printed their three lines.
  pub reach-IsRun : {n : ℕ} {p : Process} → Reach hash n p → IsRun n p
  reach-IsRun {n} {p} r =
      let i = reach-Inv r in
      record {
        first = i.first;
        second = i.second;
        bound =
            omega
              (arith, i.counted, main_bound p.main_at, thread_bound p.t1.at, thread_bound p.t2.at);
        ends = elim (waits-CanStep p p.main_at refl i) [
          | inl end ↦
              let done1 = i.first_joined (ground (arith, end)) in
              let done2 = i.second_joined (ground (arith, end)) in
              inl (
                end,
                ground (arith, i.counted, end, done1, done2),
                ground (arith, i.first.lines, done1),
                ground (arith, i.second.lines, done2),
              )
          | inr (left, can) ↦
              inr (omega (arith, i.counted, left, thread_bound p.t1.at, thread_bound p.t2.at), can)
        ];
      }
