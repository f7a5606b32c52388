-- ===== src/Raw6/RawUdp/Outcome.antt =====
-- When a run of c/raw6/rawudp.c comes to its exit: the content has to fit the buffer.
use study_tips.Base.{◌^◌, ◌<◌, ◌≡◌, ◌||◌, arith, true, false, if◌then◌else◌, leb, dec_lt}
use study_tips.Base.Int.{pos, is_neg}
use study_tips.Os.{exit, ◌▸◌, exits}
use study_tips.Os.Sockets.{close}
use study_tips.Raw6.RawUdp.{Replies, Settings, run_with}
use study_tips.Raw6.RawUdp.Main.{HasAddresses, send_v6-GoesOn, send_v4-GoesOn}
use study_tips.Raw6.RawUdp.Fault.{send_v6-fault, send_v4-fault}

module _ (r : Replies) (s : Settings) (h : HasAddresses s) (fits : s.content_len < 2 ^ 16) where
  v6_exits :
      s.is_v4 ≡ false
      → exits (run_with r s) ≡ (is_neg r.on_socket || is_neg r.on_bind || leb s.content_len 4048)
  unfolding run_with
  v6_exits e =
      let end = close r.on_socket ▸ exit (pos 0) in
      elim (dec_lt 4048 s.content_len) [
        | yes big ↦ ground (
          arith,
          send_v6-fault s.from s.to s.content_len fits r r.on_socket s.iovec_flag end h.from6 h.to6
              big,
        )
        | no small ↦ ground (
          arith,
          (send_v6-GoesOn r r.on_socket s.from s.to s.iovec_flag s.content_len end h.from6 h.to6
              (omega arith)).0,
        )
      ]

  v4_exits :
      s.is_v4 ≡ true
      → exits (run_with r s) ≡ (is_neg r.on_socket || is_neg r.on_bind || leb s.content_len 4068)
  unfolding run_with
  v4_exits e =
      let end = close r.on_socket ▸ exit (pos 0) in
      elim (dec_lt 4068 s.content_len) [
        | yes big ↦ ground (
          arith,
          send_v4-fault s.from4 s.to4 s.content_len fits r r.on_socket s.iovec_flag end h.from4
              h.to4 big,
        )
        | no small ↦ ground (
          arith,
          (send_v4-GoesOn r r.on_socket s.from4 s.to4 s.iovec_flag s.content_len end h.from4 h.to4
              (omega arith)).0,
        )
      ]

  -- With addresses of the families' sizes and a length that is a uint16_t, a run of `main` from its
  -- options on comes to its exit just if the socket or the bind fails, or if the content has at most
  -- 4048 bytes, or 4068 with `-4`.
  pub exits-run_with : exits (run_with r s) ≡ (
      is_neg r.on_socket || is_neg r.on_bind || leb s.content_len (if s.is_v4 then 4068 else 4048))
  exits-run_with = ground (arith, v6_exits, v4_exits)
