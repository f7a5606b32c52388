-- ===== src/Raw6/Exchange/Tests.antt =====
-- Two runs of c/raw6/rawudp.c, and c/raw6/server.c.
use study_tips.Base.{ℕ, ◌≤◌, ◌≡◌, refl, arith, false, some, List, [], ◌∷◌}
use study_tips.Base.Int.{pos}
use study_tips.Header.Memory.{all_bytes-IsBytes}
use study_tips.Raw6.RawUdp.{Replies, Settings}
use study_tips.Raw6.Server.{ab_pkt_info, show_all}
use study_tips.Raw6.Exchange.{CanSend, AllCanSend, packets_of, shown_lines, show_all-packets_of}

abbrev here6 : List ℕ
here6 = 0 ∷ 0 ∷ 0 ∷ 0 ∷ 0 ∷ 0 ∷ 0 ∷ 0 ∷ 0 ∷ 0 ∷ 0 ∷ 0 ∷ 0 ∷ 0 ∷ 0 ∷ 1 ∷ []

abbrev here4 : List ℕ
here4 = 127 ∷ 0 ∷ 0 ∷ 1 ∷ []

abbrev replies : Replies
replies = record { on_socket = pos 3; on_bind = pos 0; on_send = pos 20; on_send_again = pos 20 }

abbrev settings : ℕ → Settings
settings n = record {
  from = here6;
  to = here6;
  from4 = here4;
  to4 = here4;
  iovec_flag = false;
  is_v4 = false;
  content_len = n;
}

settings-CanSend : (n : ℕ) → 36 ≤ n → n ≤ 4048 → CanSend replies (settings n)
settings-CanSend n long fits = record {
  addresses = record { from6 = refl; to6 = refl; from4 = refl; to4 = refl };
  over_ipv6 = refl;
  bytes_from = all_bytes-IsBytes here6 refl;
  bytes_to = all_bytes-IsBytes here6 refl;
  opened = refl;
  bound = refl;
  plain = refl;
  fits = fits;
  long = long;
}

abbrev runs : List (Replies × Settings)
runs = (replies, settings 40) ∷ (replies, settings 4048) ∷ []

runs-AllCanSend : AllCanSend runs
runs-AllCanSend = (
  settings-CanSend 40 (omega arith) (omega arith),
  (settings-CanSend 4048 (omega arith) (omega arith), _),
)

show_all-packets_of_example : show_all ab_pkt_info 0 (packets_of runs) ≡ some (shown_lines 0 runs)
show_all-packets_of_example = show_all-packets_of runs runs-AllCanSend
