-- ===== src/Cap/Usage.antt =====
-- `usage` of c/cap/main.c, whose last two lines are indented to where the first goes on behind the
-- program's name.
pub mod Laws
mod Tests
use study_tips.Base.{
  ℕ, zero, suc, ◌+◌, ◌-◌, ◌*◌, ◌/◌, ◌%◌, Bool, false, ◌&&◌, Option, none, some, List, [], ◌∷◌, ◌++◌,
  length, replicate, take, leb, ltb, if◌then◌else◌, ◌==◌,
}
use study_tips.Base.Decimal.{decimal}
use study_tips.Header.Memory.{◌>>=◌}

-- The size of every buffer, and what `snprintf` leaves there of a text.
abbrev pub size : ℕ
size = 128

abbrev pub kept : List ℕ → List ℕ
kept text = take (size - 1) text

abbrev pub is_digit : ℕ → Bool
is_digit c = leb b'0' c && leb c b'9'

-- How `snprintf` reads a number in a format: the number, and what is behind it.
pub read_number : ℕ → List ℕ → ℕ × List ℕ
read_number n [] = (n, [])
read_number n (c ∷ cs) =
    let rest = read_number (n * 10 + (c - b'0')) cs in if is_digit c then rest else (n, c ∷ cs)

-- `%w.ps`: at most `p` bytes of the text, with spaces in front up to `w`.
abbrev pub padded : ℕ → ℕ → List ℕ → List ℕ
padded w p text = let cut = take p text in replicate (w - length cut) b' ' ++ cut

abbrev pub is_s : List ℕ → Bool
is_s [] = false
is_s (c ∷ []) = c == b's'
is_s (c ∷ d ∷ cs) = false

-- What is printed of a text by the format that is a width, a point, a precision and an `s`; `none` is
-- another format.
pub by_precision : ℕ → List ℕ → List ℕ → Option (List ℕ)
by_precision w [] text = none
by_precision w (c ∷ cs) text =
    let (p, rest) = read_number 0 cs in
    if c == b'.' && is_s rest then some (padded w p text) else none

pub by_format : List ℕ → List ℕ → Option (List ℕ)
unfolding by_precision read_number
by_format [] text = none
by_format (c ∷ cs) text =
    let (w, rest) = read_number 0 cs in if c == b'%' then by_precision w rest text else none

-- szContinueSpaces
abbrev pub continue_spaces : List ℕ
continue_spaces = replicate (size - 1) b' '

-- szUsageHeader
pub usage_header : List ℕ → List ℕ
usage_header argv0 = kept (b'U' ∷ b's' ∷ b'a' ∷ b'g' ∷ b'e' ∷ b':' ∷ b' ' ∷ argv0)

-- szOptionIndentFormatStr
pub option_indent_format : ℕ → List ℕ
option_indent_format prefix_len =
    kept (b'%' ∷ decimal prefix_len prefix_len (b'.' ∷ decimal prefix_len prefix_len (b's' ∷ [])))

-- szOptionIndent, which is printed in front of the lines about no option and about `-s`.
pub option_indent : List ℕ → Option (List ℕ)
unfolding usage_header option_indent_format by_format
option_indent argv0 = do
  indent ← by_format (option_indent_format (length (usage_header argv0))) continue_spaces
  some (kept indent)
