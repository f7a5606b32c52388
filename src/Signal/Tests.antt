-- ===== src/Signal/Tests.antt =====
-- Runs of c/signal/main.c.
use study_tips.Base.{◌+◌, inl, refl, arith}
use study_tips.Base.Int.{pos}
use study_tips.Signal.Defs.{Settings, Replies}
use study_tips.Signal.Process.{
  Process, killed, deliver, start, Step, arrive, handle_main, Reach, here, next,
}
use study_tips.Signal.Laws.{IsSound, Reach-IsSound, handled_then_killed}
use study_tips.Signal.Outline.{Move, fires, view, Step-Move}

abbrev plain : Settings
plain = record { thread_test = 0; no_pass_again = 0; epoll_blocked = 0xff; signumpara = pos 2 }

abbrev quiet : Settings
quiet = record plain { no_pass_again = 1 }

abbrev replies : Replies
replies = record { on_epoll_create = pos 3; on_pipe = pos 0; on_epoll_ctl = pos 0 }

-- The signal comes, and the main thread handles it.
module _ (s : Settings) where
  abbrev arrived : Process
  arrived = let p = start s replies in record p { pending = p.pending + 1; sent = p.sent + 1 }

  handled : Reach s replies (deliver s arrived)
  unfolding start
  handled = next (next here (arrive refl)) (handle_main refl refl (omega arith))

Reach-IsSound_example : IsSound plain (deliver plain (arrived plain))
Reach-IsSound_example = Reach-IsSound plain replies (handled plain)

handled_then_killed_example :
    Step plain
      (deliver plain (arrived plain))
      (record (deliver plain (arrived plain)) { phase = killed })
unfolding deliver start
handled_then_killed_example =
    handled_then_killed plain replies (handled plain) refl refl (inl (refl, refl))

Step-Move_example : Move fires (view (arrived plain)) (view (deliver plain (arrived plain)))
unfolding start
Step-Move_example =
    Step-Move plain replies (next here (arrive refl)) (handle_main refl refl (omega arith))
