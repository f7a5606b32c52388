-- ===== src/Raw6/FlowLabel/Laws.antt =====
-- Runs of c/raw6/flowlabel.c.
use study_tips.Base.{arith}
use study_tips.Base.Int.{eqb_refl}
use study_tips.Os.{IsClean}
use study_tips.Os.Sockets.{call_descriptors}
use study_tips.Raw6.FlowLabel.{Replies, main}

-- Whatever the kernel answers, `main` exits and leaves no descriptor open.
pub flowlabel-IsClean : (r : Replies) → IsClean (main r)
unfolding main
flowlabel-IsClean r = ground (arith, eqb_refl r.on_socket)
