-- ===== src/Signal/Outline.antt =====
-- What the program is to show, as a small machine, and that the process keeps to it. The machine sees
-- how often the handler has run, and not which handling is set.
use study_tips.Base.{ℕ, zero, suc, ◌≡◌, ◌+◌, refl, arith, inl, inr}
use study_tips.Base.Int.{eqb_refl}
use study_tips.Signal.Defs.{Settings, Replies}
use study_tips.Signal.Process.{
  Process, custom, default, Phase, going, exited, killed, deliver, Step, arrive, merge, handle_main,
  handle_second, kill_main, kill_second, time_out, finish, join, Reach,
}
use study_tips.Signal.Laws.{Reach-IsSound}

-- The handler has not run, or has run once; `spoiled` is any state that the program is not to come to,
-- as when it has run twice. `dead` is a process that is killed behind its handler, and `over` one that
-- has returned from `main`.
pub data View : Type 0 where
  armed spent spoiled dead over : View

-- The moves of the machine, by what is seen of them.
pub data Label : Type 0 where
  fires kills leaves : Label

pub data Move : Label → View → View → Type 0 where
  fire : Move fires armed spent
  kill : Move kills spent dead
  leave_armed : Move leaves armed over
  leave_spent : Move leaves spent over

abbrev pub view_of : Phase → ℕ → View
view_of going zero = armed
view_of going (suc zero) = spent
view_of going (suc (suc n)) = spoiled
view_of killed zero = spoiled
view_of killed (suc zero) = dead
view_of killed (suc (suc n)) = spoiled
view_of exited zero = over
view_of exited (suc zero) = over
view_of exited (suc (suc n)) = spoiled

abbrev pub view : Process → View
view p = view_of p.phase p.handled

-- What is seen of a step: a handler that runs fires, a default action kills, the end of `main` leaves, and
-- nothing is seen of the others.
abbrev pub IsSeen : {s : Settings} {p q : Process} → Step s p q → Type 0
IsSeen {p = p} {q = q} (arrive g) = view p ≡ view q
IsSeen {p = p} {q = q} (merge g n) = view p ≡ view q
IsSeen {p = p} {q = q} (handle_main g c n) = Move fires (view p) (view q)
IsSeen {p = p} {q = q} (handle_second g c n i) = Move fires (view p) (view q)
IsSeen {p = p} {q = q} (kill_main g d n) = Move kills (view p) (view q)
IsSeen {p = p} {q = q} (kill_second g d n i) = Move kills (view p) (view q)
IsSeen {p = p} {q = q} (time_out g l) = view p ≡ view q
IsSeen {p = p} {q = q} (finish g l) = view p ≡ view q
IsSeen {p = p} {q = q} (join g l) = Move leaves (view p) (view q)

deliver-phase : (s : Settings) (p : Process) → (deliver s p).phase ≡ p.phase
unfolding deliver
deliver-phase s p = ground (arith, eqb_refl s.signumpara)

deliver-handled : (s : Settings) (p : Process) → (deliver s p).handled ≡ p.handled + 1
unfolding deliver
deliver-handled s p = ground (arith, eqb_refl s.signumpara)

module _ (s : Settings) (r : Replies) {p : Process} (reach : Reach s r p) where
  -- A process that is still to handle its signal has not run the handler, and one that is not has run it.
  not_yet : p.disposition ≡ custom → p.handled ≡ 0
  not_yet c = let v = Reach-IsSound s r reach in ground (arith, v.handled_once)

  once : p.disposition ≡ default → p.handled ≡ 1
  once d = let v = Reach-IsSound s r reach in ground (arith, v.handled_once)

  fired :
      p.phase ≡ going
      → p.disposition ≡ custom
      → Move fires (view p) (view_of (deliver s p).phase (deliver s p).handled)
  fired g c = rw (deliver-phase s p, deliver-handled s p, g, not_yet c) fire

  killed_behind :
      p.phase ≡ going → p.disposition ≡ default → Move kills (view p) (view_of killed p.handled)
  killed_behind g d = rw (g, once d) kill

  left : p.phase ≡ going → Move leaves (view p) (view_of exited p.handled)
  left g = elim (Reach-IsSound s r reach).handled_once [
    | inl (c, none_yet) ↦ rw (g, none_yet) leave_armed
    | inr (d, one) ↦ rw (g, one) leave_spent
  ]

  -- In every run of the program, a step in which the handler runs fires the machine, one by a default
  -- action kills, the return of `main` leaves, and every other step keeps the view: the handler runs once
  -- at most, and no process is killed whose handler has not run.
  pub Step-Move : {q : Process} (step : Step s p q) → IsSeen step
  Step-Move (arrive g) = refl
  Step-Move (merge g n) = refl
  Step-Move (handle_main g c n) = fired g c
  Step-Move (handle_second g c n i) = fired g c
  Step-Move (kill_main g d n) = killed_behind g d
  Step-Move (kill_second g d n i) = killed_behind g d
  Step-Move (time_out g l) = refl
  Step-Move (finish g l) = refl
  Step-Move (join g l) = left g
