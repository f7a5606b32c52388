-- ===== src/Ambient/Tests.antt =====
-- c/ambient/main.c at concrete arguments.
use study_tips.Base.{ℕ, ◌≡◌, refl, arith, some, List, [], ◌∷◌, length}
use study_tips.Base.Int.{pos}
use study_tips.Os.{status}
use study_tips.Ambient.Caplist.{tokens, get_caplist}
use study_tips.Ambient.Caplist.Laws.{listed}
use study_tips.Ambient.Caplist.Tokens.{joined, get_caplist-joined}
use study_tips.Ambient.Program.{System, dash_c, main}
use study_tips.Ambient.Program.Laws.{raised, ambient_raises}

-- A converter that counts the digits.
abbrev system : System
system = record {
  cap_net_raw = pos 13;
  cap_net_admin = pos 12;
  cap_sys_nice = pos 23;
  atoi = λ text. pos (length text);
  on_update = λ i. pos 0;
  on_raise = λ i. pos 0;
}

abbrev text : List ℕ
text = b'1' ∷ b',' ∷ b',' ∷ b'2' ∷ b'3' ∷ []

abbrev bash : List ℕ
bash = b's' ∷ b'h' ∷ []

tokens-text : tokens [] text ≡ (b'1' ∷ []) ∷ (b'2' ∷ b'3' ∷ []) ∷ []
unfolding tokens
tokens-text = refl

ambient_raises_example :
    (raised (main system (dash_c ∷ text ∷ bash ∷ [])) ≡ pos 1 ∷ pos 2 ∷ [])
    × (status (main system (dash_c ∷ text ∷ bash ∷ [])) ≡ some (pos 0))
ambient_raises_example =
    ambient_raises system text bash (b'1' ∷ []) [] ((b'2' ∷ b'3' ∷ []) ∷ []) (λ i. refl) (λ i. refl)
      tokens-text

abbrev two_texts : List (List ℕ)
two_texts = (b'1' ∷ []) ∷ (b'2' ∷ b'3' ∷ []) ∷ []

get_caplist-joined_example :
    (tokens [] (joined two_texts) ≡ two_texts)
    × (get_caplist system.atoi (joined two_texts) ≡ listed system.atoi two_texts)
get_caplist-joined_example = get_caplist-joined system.atoi two_texts (
  λ e. absurd (cc e),
  (λ e. absurd (omega (arith, e)), tt),
  (λ e. absurd (cc e), (λ e. absurd (omega (arith, e)), (λ e. absurd (omega (arith, e)), tt)), tt),
)
