-- ===== src/Cap/Usage/Tests.antt =====
-- The indentation in the usage text of c/cap/main.c, for the name `cap`.
use study_tips.Base.{◌≡◌, refl, some, [], ◌∷◌, replicate, length}
use Prim.Native.Nat.{min}
use study_tips.Cap.Usage.Laws.{option_indent_lem}
use study_tips.Base.Decimal.{decimal}
use study_tips.Cap.Usage.{
  option_indent, usage_header, option_indent_format, by_format, by_precision, read_number,
}

indents : option_indent (b'c' ∷ b'a' ∷ b'p' ∷ []) ≡ some (replicate 10 b' ')
unfolding option_indent usage_header option_indent_format decimal by_format by_precision read_number
indents = refl

option_indent_lem_example :
    (option_indent (b'c' ∷ b'a' ∷ b'p' ∷ [])
      ≡ some (replicate (length (usage_header (b'c' ∷ b'a' ∷ b'p' ∷ []))) b' '))
    × (length (usage_header (b'c' ∷ b'a' ∷ b'p' ∷ [])) ≡ min 127 10)
option_indent_lem_example = option_indent_lem (b'c' ∷ b'a' ∷ b'p' ∷ [])
