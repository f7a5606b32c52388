-- ===== src/Meta/Tests.antt =====
-- What c/meta/meta.c prints.
use study_tips.Base.{◌≡◌, refl, [], ◌∷◌}
use study_tips.Base.Decimal.{decimal}
use study_tips.Meta.{
  hello_meta, loaded, hello_world, str_and_int, hello, will_use_macro, macro2,
  will_use_macro_by_arg, macro3, will_use_and_pass, macro4, macro5_number, macro5_str,
  macro5_str_v2, will_exit, main,
}

prints :
    main
    ≡ hello_meta
      ∷ loaded
      ∷ hello_world
      ∷ str_and_int hello 10
      ∷ will_use_macro
      ∷ macro2
      ∷ will_use_macro_by_arg
      ∷ macro3
      ∷ will_use_and_pass
      ∷ macro4 100
      ∷ macro5_number 123
      ∷ macro5_str (b'M' ∷ b'A' ∷ b'C' ∷ b'R' ∷ b'O' ∷ b'5' ∷ [])
      ∷ macro5_str_v2 (b'1' ∷ b'2' ∷ b'3' ∷ [])
      ∷ will_exit
      ∷ []
unfolding main decimal
prints = refl
