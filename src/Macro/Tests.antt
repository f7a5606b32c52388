-- ===== src/Macro/Tests.antt =====
-- What the functions of c/macro/macro.c print and return.
use study_tips.Base.{true, false, refl, ◌≡◌, ◌↔◌, [], ◌∷◌}
use study_tips.Macro.{
  returns, void, additional, no_additional, hello_world, return_code_test, will_exit,
  void_has_print, void_has_print_c99, bool_has_print, bool_has_print_c99, next, para_check_return,
  run, main, f_void_has_no_print_para_ret, f_bool_has_no_print_para_ret,
}
use study_tips.Macro.Laws.{meant, first_holds, run-meant}

run-meant_example :
    (run f_bool_has_no_print_para_ret ≡ meant f_bool_has_no_print_para_ret)
    ↔ (first_holds f_bool_has_no_print_para_ret ≡ true)
run-meant_example = run-meant f_bool_has_no_print_para_ret

-- The last line of these two functions is meant to print.
void_ends : run f_void_has_no_print_para_ret ≡ returns [] void
unfolding run next para_check_return
void_ends = refl

bool_ends : run f_bool_has_no_print_para_ret ≡ returns [] true
unfolding run next para_check_return
bool_ends = refl

void_meant : meant f_void_has_no_print_para_ret ≡ returns (no_additional false ∷ []) void
void_meant = refl

bool_meant : meant f_bool_has_no_print_para_ret ≡ returns (no_additional false ∷ []) false
bool_meant = refl

main_prints : main ≡ (
  hello_world
      ∷ additional false void_has_print 0
      ∷ additional true void_has_print_c99 0
      ∷ return_code_test
      ∷ additional false bool_has_print 0
      ∷ additional true bool_has_print_c99 0
      ∷ will_exit
      ∷ [],
  0,
)
unfolding main run next para_check_return
main_prints = refl
