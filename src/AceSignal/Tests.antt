-- ===== src/AceSignal/Tests.antt =====
-- ace/signal/main.cpp with a stack of two addresses, and with one that has no strings.
use study_tips.Base.{Bool, ◌||◌, ◌≡◌, refl, inl, inr, arith, List, true, false, none, some, [], ◌∷◌}
use study_tips.AceSignal.{Signum, sigfpe, sigsegv, Trace, main}
use study_tips.AceSignal.Laws.{CallsRegistered, IsTrace, IsMain, main-IsMain}

-- A reactor that calls the handler if the signal is in the list.
abbrev is_same : Signum → Signum → Bool
is_same sigfpe sigfpe = true
is_same sigfpe sigsegv = false
is_same sigsegv sigfpe = false
is_same sigsegv sigsegv = true

abbrev reactor : List Signum → Signum → Bool
reactor [] signum = false
reactor (s ∷ registered) signum = is_same s signum || reactor registered signum

is_same_refl : (s : Signum) → is_same s s ≡ true
is_same_refl sigfpe = refl
is_same_refl sigsegv = refl

reactor-CallsRegistered : CallsRegistered reactor
reactor-CallsRegistered [] signum h = absurd h
reactor-CallsRegistered (s ∷ registered) signum (inl e) = rw (e, is_same_refl signum)
reactor-CallsRegistered (s ∷ registered) signum (inr h) =
    ground (arith, reactor-CallsRegistered registered signum h)

abbrev two_frames : Trace
two_frames = record { nptrs = 2; strings = some ((97 ∷ []) ∷ (98 ∷ []) ∷ []) }

abbrev no_strings : Trace
no_strings = record { nptrs = 7; strings = none }

two_frames-IsTrace : IsTrace two_frames
two_frames-IsTrace strings e = cc e

no_strings-IsTrace : IsTrace no_strings
no_strings-IsTrace strings e = absurd (cc e)

main-IsMain_example :
    IsMain two_frames no_strings
      (false ∷ true ∷ [])
      (main reactor two_frames no_strings (false ∷ true ∷ []))
main-IsMain_example =
    main-IsMain reactor reactor-CallsRegistered two_frames no_strings two_frames-IsTrace
      no_strings-IsTrace (false ∷ true ∷ [])
