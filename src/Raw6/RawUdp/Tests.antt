-- ===== src/Raw6/RawUdp/Tests.antt =====
-- c/raw6/rawudp.c at concrete addresses and arguments.
use study_tips.Base.{
  ℕ, ◌≤◌, ◌≡◌, refl, arith, if◌then◌else◌, ◌==◌, true, false, Option, some, none, List, [], ◌∷◌,
  length,
}
use study_tips.Base.Int.{pos}
use study_tips.Os.{exits, IsClean}
use study_tips.Os.Sockets.{call_descriptors}
use study_tips.Raw6.RawUdp.{
  Replies, Inet, Opt, iovec, content, Settings, take_options, take_option, default_settings, main,
  run_with, hello_world,
}
use study_tips.Raw6.RawUdp.Datagram.{SendsAccepted}
use study_tips.Raw6.RawUdp.Sent.{run_with-SendsAccepted}
use study_tips.Header.Memory.{all_bytes-IsBytes}
use study_tips.Raw6.RawUdp.Outcome.{exits-run_with}
use study_tips.Raw6.RawUdp.Gathered.{SendsMismatched, run_with-SendsMismatched}
use study_tips.Raw6.RawUdp.Main.{HasSizes, HasAddresses, rawudp-IsClean}

abbrev here6 : List ℕ
here6 = 0 ∷ 0 ∷ 0 ∷ 0 ∷ 0 ∷ 0 ∷ 0 ∷ 0 ∷ 0 ∷ 0 ∷ 0 ∷ 0 ∷ 0 ∷ 0 ∷ 0 ∷ 1 ∷ []

abbrev here4 : List ℕ
here4 = 127 ∷ 0 ∷ 0 ∷ 1 ∷ []

abbrev replies : Replies
replies = record { on_socket = pos 3; on_bind = pos 0; on_send = pos 20; on_send_again = pos 20 }

-- Converters that take the text's bytes for the address, when it has the size.
abbrev sized : ℕ → List ℕ → Option (List ℕ)
sized n a = if length a == n then some a else none

abbrev inet : Inet
inet = record { pton6 = sized 16; pton4 = sized 4; atoi = λ text. pos (length text) }

inet-HasSizes : HasSizes inet
inet-HasSizes = record {
  size6 = λ text a e. sized_length 16 text a e;
  size4 = λ text a e. sized_length 4 text a e;
}
  where
    sized_length : (n : ℕ) (text a : List ℕ) → sized n text ≡ some a → length a ≡ n
    sized_length n text a e = ground arith

abbrev arguments : List Opt
arguments = content hello_world ∷ iovec ∷ []

arguments_content :
    (s : Settings)
    → take_options inet arguments (default_settings inet here6 here6 here4 here4) ≡ some s
    → s.content_len ≤ 4048
unfolding take_options take_option default_settings
arguments_content s e = ground arith

rawudp-IsClean_example : IsClean (main inet here6 here6 here4 here4 arguments replies)
rawudp-IsClean_example =
    rawudp-IsClean inet inet-HasSizes here6 here6 here4 here4 arguments replies arguments_content

-- The content's length is one more than IPv6 has room for.
abbrev too_long : Settings
too_long = record {
  from = here6;
  to = here6;
  from4 = here4;
  to4 = here4;
  iovec_flag = false;
  is_v4 = false;
  content_len = 4049;
}

too_long-HasAddresses : HasAddresses too_long
too_long-HasAddresses = record { from6 = refl; to6 = refl; from4 = refl; to4 = refl }

exits-run_with_example : exits (run_with replies too_long) ≡ false
exits-run_with_example = exits-run_with replies too_long too_long-HasAddresses (omega arith)

abbrev fitting : Settings
fitting = record too_long { content_len = 12 }

run_with-SendsAccepted_example : SendsAccepted here6 here6 12 (run_with replies fitting)
run_with-SendsAccepted_example =
    run_with-SendsAccepted replies fitting
      (record { from6 = refl; to6 = refl; from4 = refl; to4 = refl }) (all_bytes-IsBytes here6 refl)
      (all_bytes-IsBytes here6 refl) refl refl refl (omega arith)

abbrev gathering : Settings
gathering = record fitting { iovec_flag = true }

run_with-SendsMismatched_example : SendsMismatched here6 here6 (run_with replies gathering)
run_with-SendsMismatched_example =
    run_with-SendsMismatched replies gathering
      (record { from6 = refl; to6 = refl; from4 = refl; to4 = refl }) (all_bytes-IsBytes here6 refl)
      (all_bytes-IsBytes here6 refl) refl refl refl (omega arith)
