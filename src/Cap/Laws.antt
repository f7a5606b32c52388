-- ===== src/Cap/Laws.antt =====
-- When c/cap/main.c ends, and what it leaves open.
use study_tips.Base.{
  ℕ, zero, suc, ◌≡◌, ◌⊎◌, refl, arith, Bool, true, false, not, ◌&&◌, ◌||◌, ◌==◌, none, some, List,
  [], ◌∷◌, if◌then◌else◌, inl, inr,
}
use study_tips.Base.Int.{ℤ, pos, eqb, eqb_refl}
use study_tips.Os.{exits, left_open}
use study_tips.Cap.{
  call_descriptors, Flags, Opt, service, unknown, a_value, take_option, take_options, serve, wait,
  run_with, default_flags, main,
}

abbrev pub has_service : List Opt → Bool
has_service [] = false
has_service (service ∷ os) = true
has_service (a_value text ∷ os) = has_service os
has_service (unknown ∷ os) = has_service os

abbrev pub has_unknown : List Opt → Bool
has_unknown [] = false
has_unknown (service ∷ os) = has_unknown os
has_unknown (a_value text ∷ os) = has_unknown os
has_unknown (unknown ∷ os) = true

serve_lem :
    (rounds : ℕ) (fds : List ℤ)
    → (exits (serve rounds) ≡ false) × (left_open fds (serve rounds) ≡ fds)
unfolding serve
serve_lem zero fds = (refl, refl)
serve_lem (suc rounds) fds = serve_lem rounds fds

wait_lem :
    (rounds : ℕ) (f : Flags) (pid : ℤ) (fds : List ℤ)
    → (exits (wait rounds f pid) ≡ (f.service_flag == 0 || eqb pid (pos 0)))
      × (left_open fds (wait rounds f pid) ≡ fds)
unfolding wait
wait_lem rounds f pid fds = ground (arith, serve_lem rounds fds)

run_with_lem :
    (rounds : ℕ) (f : Flags) (pid fd : ℤ)
    → (exits (run_with rounds f pid fd) ≡ (f.service_flag == 0 || eqb pid (pos 0)))
      × (left_open [] (run_with rounds f pid fd) ≡ (if eqb fd (pos 0) then fd ∷ [] else []))
unfolding run_with
run_with_lem rounds f pid fd =
    ground (arith, wait_lem rounds f pid [], wait_lem rounds f pid (fd ∷ []), eqb_refl fd)

-- What the options do: the usage text for an unknown one, and otherwise the service if it is wished.
options_lem :
    (atoi : List ℕ → ℤ) (os : List Opt) (f : Flags)
    → ((has_unknown os ≡ true) × (take_options atoi os f ≡ none))
      ⊎ ((has_unknown os ≡ false)
          × ((g : Flags) × (take_options atoi os f ≡ some g)
              × ((g.service_flag == 0) ≡ (f.service_flag == 0 && not (has_service os)))))
unfolding take_options take_option
options_lem atoi [] f = inr (refl, (f, refl, ground arith))
options_lem atoi (unknown ∷ os) f = inl (refl, refl)
options_lem atoi (a_value text ∷ os) f = options_lem atoi os (record f { a_flag_value = atoi text })
options_lem atoi (service ∷ os) f = elim (options_lem atoi os (record f { service_flag = 1 })) [
  | inl (bad, stop) ↦ inl (bad, stop)
  | inr (good, (g, e, h)) ↦ inr (good, (g, e, ground (arith, h)))
]

-- `main` ends, unless it is the parent and a service that has been asked for with no unknown option;
-- it leaves no descriptor open, but for descriptor 0, which it takes for a failure, when the socket is
-- that one.
pub cap_runs :
    (atoi : List ℕ → ℤ) (rounds : ℕ) (opts : List Opt) (pid fd : ℤ)
    → (exits (main atoi rounds opts pid fd)
        ≡ (has_unknown opts || (not (has_service opts) || eqb pid (pos 0))))
      × (left_open [] (main atoi rounds opts pid fd)
          ≡ (if has_unknown opts then [] else (if eqb fd (pos 0) then fd ∷ [] else [])))
unfolding main
cap_runs atoi rounds opts pid fd = elim (options_lem atoi opts default_flags) [
  | inl (bad, stop) ↦ rw (stop, main) ground (arith, bad)
  | inr (good, (g, e, h)) ↦ rw (e, main) ground (arith, good, h, run_with_lem rounds g pid fd)
]
