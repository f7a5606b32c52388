-- ===== src/Tls/Laws.antt =====
-- What the threads of c++/tls/main.cpp see of each other, and when `main` returns.
use study_tips.Base.{
  ℕ, ◌≡◌, refl, ap, ◌∙◌, arith, Bool, true, false, List, [], ◌∷◌, ◌++◌, take, if◌then◌else◌,
}
use mathlib.Core.List.{append-nil}
use study_tips.Base.Int.{ℤ, pos, to_int}
use study_tips.Tls.{
  Name, thread1, thread2, At, at_set, at_endl, at_var, at_pointer, at_set_var, at_set_pointer,
  finished, Thread, Text, endl, var_is, pointer_is, advance, prints, signed, new_thread,
}

abbrev pub same : Name → Name → Bool
same thread1 thread1 = true
same thread1 thread2 = false
same thread2 thread1 = false
same thread2 thread2 = true

-- What one thread has printed.
pub lines_of : Name → List (Name × Text) → List Text
lines_of name [] = []
lines_of name ((who, x) ∷ out) =
    let rest = lines_of name out in if same who name then x ∷ rest else rest

lines_of-append :
    (name : Name) (xs ys : List (Name × Text))
    → lines_of name (xs ++ ys) ≡ lines_of name xs ++ lines_of name ys
unfolding lines_of
lines_of-append name [] ys = refl
lines_of-append name ((who, x) ∷ xs) ys = ground (arith, lines_of-append name xs ys)

lines_of-own : (name : Name) (xs : List Text) → lines_of name (signed name xs) ≡ xs
unfolding lines_of
lines_of-own thread1 [] = refl
lines_of-own thread2 [] = refl
lines_of-own thread1 (x ∷ xs) = ap (λ r. x ∷ r) (lines_of-own thread1 xs)
lines_of-own thread2 (x ∷ xs) = ap (λ r. x ∷ r) (lines_of-own thread2 xs)

lines_of-other :
    (name who : Name) (xs : List Text) → same who name ≡ false → lines_of name (signed who xs) ≡ []
unfolding lines_of
lines_of-other name who [] h = refl
lines_of-other name who (x ∷ xs) h = rw h (lines_of-other name who xs h)

-- What the thread has printed, and what it prints next.
lines_of-signed :
    (name : Name) (out : List (Name × Text)) (xs : List Text)
    → lines_of name (out ++ signed name xs) ≡ lines_of name out ++ xs
lines_of-signed name out xs =
    lines_of-append name out (signed name xs)
    ∙ ap (λ r. lines_of name out ++ r) (lines_of-own name xs)

lines_of-kept :
    (name who : Name) (out : List (Name × Text)) (xs : List Text)
    → same who name ≡ false
    → lines_of name (out ++ signed who xs) ≡ lines_of name out
lines_of-kept name who out xs h =
    lines_of-append name out (signed who xs)
    ∙ ap (λ r. lines_of name out ++ r) (lines_of-other name who xs h)
    ∙ append-nil (lines_of name out)

module _ (hash : Name → ℕ) where
  -- The three lines of a thread: its variable is its own hash as an int, its pointer is null.
  abbrev pub whole : Name → List Text
  whole name = endl ∷ var_is (to_int (hash name)) ∷ pointer_is 0 ∷ []

  -- The variables and the lines of a thread, by the statement that comes next.
  abbrev pub own_var : Name → At → ℤ
  own_var name at_set = pos 0
  own_var name at_endl = to_int (hash name)
  own_var name at_var = to_int (hash name)
  own_var name at_pointer = to_int (hash name)
  own_var name at_set_var = to_int (hash name)
  own_var name at_set_pointer = pos 12345
  own_var name finished = pos 12345

  abbrev pub own_pointer : At → ℕ
  own_pointer at_set = 0
  own_pointer at_endl = 0
  own_pointer at_var = 0
  own_pointer at_pointer = 0
  own_pointer at_set_var = 0
  own_pointer at_set_pointer = 0
  own_pointer finished = 54321

  abbrev pub lines_so_far : At → ℕ
  lines_so_far at_set = 0
  lines_so_far at_endl = 0
  lines_so_far at_var = 1
  lines_so_far at_pointer = 2
  lines_so_far at_set_var = 3
  lines_so_far at_set_pointer = 3
  lines_so_far finished = 3

  -- A thread that no other has disturbed.
  pub record IsAlone (name : Name) (t : Thread) (out : List (Name × Text)) : Type 0 where
    pub named : t.name ≡ name
    pub var : t.var ≡ own_var name t.at
    pub pointer : t.pointer ≡ own_pointer t.at
    pub lines : lines_of name out ≡ take (lines_so_far t.at) (whole name)

  -- Its next statement.
  advance-IsAlone :
      (name : Name) (t : Thread) (at : At) (out out' : List (Name × Text))
      → t.at ≡ at
      → IsAlone name t out
      → lines_of name out' ≡ lines_of name out ++ prints t at
      → IsAlone name (advance hash t at) out'
  unfolding advance prints
  advance-IsAlone name t at_set out out' e a l = record {
    named = a.named;
    var = ap (λ n. to_int (hash n)) a.named;
    pointer = ground (arith, e, a.pointer);
    lines = ground (arith, e, a.lines, l);
  }
  advance-IsAlone name t at_endl out out' e a l = record {
    named = a.named;
    var = ground (arith, e, a.var);
    pointer = ground (arith, e, a.pointer);
    lines = ground (arith, e, a.lines, a.var, a.pointer, l);
  }
  advance-IsAlone name t at_var out out' e a l = record {
    named = a.named;
    var = ground (arith, e, a.var);
    pointer = ground (arith, e, a.pointer);
    lines = ground (arith, e, a.lines, a.var, a.pointer, l);
  }
  advance-IsAlone name t at_pointer out out' e a l = record {
    named = a.named;
    var = ground (arith, e, a.var);
    pointer = ground (arith, e, a.pointer);
    lines = ground (arith, e, a.lines, a.var, a.pointer, l);
  }
  advance-IsAlone name t at_set_var out out' e a l = record {
    named = a.named;
    var = ground (arith, e, a.var);
    pointer = ground (arith, e, a.pointer);
    lines = ground (arith, e, a.lines, a.var, a.pointer, l);
  }
  advance-IsAlone name t at_set_pointer out out' e a l = record {
    named = a.named;
    var = ground (arith, e, a.var);
    pointer = ground (arith, e, a.pointer);
    lines = ground (arith, e, a.lines, a.var, a.pointer, l);
  }
  advance-IsAlone name t finished out out' e a l = record {
    named = a.named;
    var = ground (arith, e, a.var);
    pointer = ground (arith, e, a.pointer);
    lines = ground (arith, e, a.lines, a.var, a.pointer, l);
  }

  pub new_thread-IsAlone : (name : Name) → IsAlone name (new_thread name) []
  unfolding lines_of
  new_thread-IsAlone name = record { named = refl; var = refl; pointer = refl; lines = refl }

  -- A statement of the thread, and one of another.
  pub own_step :
      (name : Name) (t : Thread) (out : List (Name × Text))
      → IsAlone name t out
      → IsAlone name (advance hash t t.at) (out ++ signed t.name (prints t t.at))
  unfolding prints
  own_step name t out a =
      let printed_next : lines_of name (out ++ signed t.name (prints t t.at))
          ≡ lines_of name out ++ prints t t.at =
        rw a.named (lines_of-signed name out (prints t t.at)) in
      advance-IsAlone name t t.at out (out ++ signed t.name (prints t t.at)) refl a printed_next

  pub other_step :
      (name who : Name) (t other : Thread) (out : List (Name × Text)) (xs : List Text)
      → same who name ≡ false
      → other.name ≡ who
      → IsAlone name t out
      → IsAlone name t (out ++ signed other.name xs)
  other_step name who t other out xs differs named a = record {
    named = a.named;
    var = a.var;
    pointer = a.pointer;
    lines = rw named (lines_of-kept name who out xs differs ∙ a.lines);
  }
