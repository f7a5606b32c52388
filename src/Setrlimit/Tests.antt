-- ===== src/Setrlimit/Tests.antt =====
-- c/setrlimit/main.c on a kernel that lets no process raise its hard limit.
use study_tips.Base.{some, none, leb, if◌then◌else◌}
use study_tips.Setrlimit.{Rlimit, Kernel}

abbrev plain : Kernel
plain = record {
  State = Rlimit;
  getrlimit = λ s. some s;
  setrlimit = λ s l. if leb l.rlim_max s.rlim_max then some l else none;
}

abbrev limits : Rlimit
limits = record { rlim_cur = 1024; rlim_max = 1048576 }
