-- ===== src/Tls/Tests.antt =====
-- c++/tls/main.cpp with the first thread ahead of the second.
use study_tips.Base.{ℕ, ◌+◌, ◌^◌, refl}
use study_tips.Tls.{
  Name, thread1, thread2, Process, start, spawn1, spawn2, run1, Reach, here, next, thread_function,
  printed, spawned2,
}
use study_tips.Tls.Runs.{IsRun, reach-IsRun}

abbrev hash : Name → ℕ
hash thread1 = 2 ^ 32 + 7
hash thread2 = 2 ^ 31

abbrev ahead : Process
ahead = record start {
  main_at = spawned2;
  t1 = thread_function hash start.t1;
  out = printed start start.t1;
}

runs_ahead : Reach hash 3 ahead
runs_ahead = next (next (next here (spawn1 refl)) (run1 refl (λ e. absurd (cc e)))) (spawn2 refl)

reach-IsRun_example : IsRun hash 3 ahead
reach-IsRun_example = reach-IsRun hash runs_ahead
