-- ===== src/Ambient/Program.antt =====
-- `set_ambient_cap` and `main` of c/ambient/main.c.
pub mod Laws
use study_tips.Base.{
  ℕ, zero, suc, ◌+◌, Bool, true, false, ◌||◌, ◌&&◌, Option, none, some, List, [], ◌∷◌,
  if◌then◌else◌, get_elem?, length, leb, ltb, ◌==◌, drop, not,
}
use study_tips.Base.Int.{ℤ, pos, minus_one, eqb}
use study_tips.Os.{Run, exit, fault, running, ◌▸◌}
use study_tips.Ambient.Caplist.{get_caplist}

-- `capng_update`, `prctl` and `execv` with their answers.
pub data Call : Type 0 where
  update : ℤ → ℤ → Call  -- of the capability, after `capng_get_caps_process`
  apply : Call
  ambient_raise : ℤ → ℤ → Call
  execv : List (List ℕ) → Call  -- from the argument that names the program on

pub record System : Type 0 where
  pub cap_net_raw : ℤ
  pub cap_net_admin : ℤ
  pub cap_sys_nice : ℤ
  pub atoi : List ℕ → ℤ
  pub on_update : ℕ → ℤ  -- by the place in the list
  pub on_raise : ℕ → ℤ

abbrev pub is_zero : ℤ → Bool
is_zero c = eqb c (pos 0)

abbrev pub dash_c : List ℕ
dash_c = b'-' ∷ b'c' ∷ []

-- `strcmp` finds no difference.
abbrev pub same_text : List ℕ → List ℕ → Bool
same_text [] [] = true
same_text [] (d ∷ ds) = false
same_text (c ∷ cs) [] = false
same_text (c ∷ cs) (d ∷ ds) = c == d && same_text cs ds

abbrev pub or_default : Option (List ℤ) → List ℤ → List ℤ
or_default none list = list
or_default (some list) default = list

module _ (sys : System) where
  pub default_caplist : List ℤ
  default_caplist = sys.cap_net_raw ∷ sys.cap_net_admin ∷ sys.cap_sys_nice ∷ minus_one ∷ []

  -- A capability at a place of the list; `rest` is what follows the call.
  pub set_ambient_cap : ℕ → ℤ → Run Call → Run Call
  set_ambient_cap i cap rest =
      update cap (sys.on_update i)
      ▸ (if not (is_zero (sys.on_update i))
          then exit (pos 2)
          else apply
            ▸ ambient_raise cap (sys.on_raise i)
            ▸ (if is_zero (sys.on_raise i) then rest else exit (pos 1)))

  -- `for (int i = 0; caplist[i] != -1; i++)`, from `i` on, with the cells that are left; running
  -- out of cells is a read outside the array.
  pub raise_all : ℕ → List ℤ → Run Call → Run Call
  raise_all i [] rest = fault
  raise_all i (cap ∷ caps) rest =
      let next = raise_all (i + 1) caps rest in
      if eqb cap minus_one then rest else set_ambient_cap i cap next

  -- The loop and what follows it. If `execv` fails, `main` returns 0; if it succeeds, the process
  -- runs another program and makes no further call here.
  pub run_with : List ℤ → List (List ℕ) → Run Call
  run_with caplist command = raise_all 0 caplist (execv command ▸ exit (pos 0))

  -- With `-c`: the list and the program are further arguments, or else the usage text is shown.
  pub with_caps : List (List ℕ) → Run Call
  with_caps [] = exit (pos 1)
  with_caps (caps ∷ []) = exit (pos 1)
  with_caps (caps ∷ program ∷ args) =
      run_with (or_default (get_caplist sys.atoi caps) default_caplist) (program ∷ args)

  -- `main`, with the arguments behind the program's name.
  pub main : List (List ℕ) → Run Call
  main [] = exit (pos 1)
  main (first ∷ args) =
      if same_text first dash_c then with_caps args else run_with default_caplist (first ∷ args)
