-- ===== src/Netlink/Program/Laws.antt =====
-- Whole runs of c/netlink/getroute.c.
use study_tips.Base.{
  ℕ, ◌+◌, ◌≡◌, inl, inr, refl, arith, Bool, true, false, Option, some, List, [], get_or,
}
use study_tips.Base.Int.{ℤ, pos, minus_one, is_neg, eqb_refl}
use study_tips.Os.{status, IsClean}
use study_tips.Netlink.Macros.{Macros, AreShorter, remaining}
use study_tips.Netlink.Messages.{Walk, walk, is_positive}
use study_tips.Netlink.Messages.Laws.{
  IsWalked, walk-IsWalked, Through, AllPass, halts, halted_is_positive,
}
use study_tips.Netlink.Program.{
  call_descriptors, Request, Options, Replies, take_options, usage, ack_flag, request, ask, finish,
  with_options, main, exceeds, buf_size,
}

module _ (k : Macros) (shorter : AreShorter k) where
  -- The loop over the messages of the reply.
  abbrev pub reply_walk : Replies k → ℕ → Option (Walk k)
  reply_walk r pid = walk k (remaining r.on_recv + 1) r.self_pid pid r.first r.on_recv

  reply_walk-IsWalked :
      (r : Replies k) (pid : ℕ) → IsWalked k r.self_pid pid r.first r.on_recv (reply_walk r pid)
  reply_walk-IsWalked r pid =
      walk-IsWalked k shorter (remaining r.on_recv + 1) r.self_pid pid r.first r.on_recv
        (omega arith)

  ask-IsClean : (r : Replies k) (req : Request) → IsClean (ask k r req)
  unfolding ask finish
  ask-IsClean r req =
      let w = reply_walk-IsWalked r req.nlmsg_pid in
      rw w.returns (ground (arith, eqb_refl r.on_socket))

  with_options-IsClean :
      (o : Options) (argv : List (List ℕ)) (has_dst : Bool) (r : Replies k)
      → IsClean (with_options k o argv has_dst r)
  unfolding with_options
  with_options-IsClean usage argv has_dst r = (refl, refl)
  with_options-IsClean (ack_flag ack) argv false r = (refl, refl)
  with_options-IsClean (ack_flag ack) argv true r = ask-IsClean r (request k ack (get_or argv 1 []))

  -- If less is left behind each valid message and attribute than before it: whatever the arguments are
  -- and the kernel answers, both loops end, and `main` exits and leaves no descriptor open.
  pub getroute-IsClean :
      (opts : List (Option ℕ)) (argv : List (List ℕ)) (has_dst : Bool) (r : Replies k)
      → IsClean (main k opts argv has_dst r)
  unfolding main
  getroute-IsClean opts argv has_dst r =
      with_options-IsClean (take_options opts false) argv has_dst r

  -- Every call has succeeded, and all the messages have been gone through.
  pub record HasSucceeded (r : Replies k) (pid : ℕ) : Type 0 where
    pub created : is_neg r.on_socket ≡ false
    pub sent : is_neg r.on_send ≡ false
    pub polled : is_neg r.on_poll ≡ false
    pub received : is_neg r.on_recv ≡ false
    pub whole : exceeds k r.on_recv buf_size ≡ false
    pub messages : List k.Message
    pub last : k.Message
    pub left : ℤ
    pub through : Through k r.first r.on_recv messages last left
    pub all_pass : AllPass k r.self_pid pid messages
    pub to_the_end : k.nlmsg_ok last left ≡ false
    pub no_rest : is_positive k left ≡ false

  ask-HasSucceeded :
      (r : Replies k) (req : Request)
      → status (ask k r req) ≡ some (pos 0)
      → HasSucceeded r req.nlmsg_pid
  unfolding ask finish
  ask-HasSucceeded r req e =
      let w = reply_walk-IsWalked r req.nlmsg_pid in
      let e' = rw w.returns at e in
      record {
        created = ground (arith, e');
        sent = ground (arith, e');
        polled = ground (arith, e');
        received = ground (arith, e');
        whole = ground (arith, e');
        messages = w.passed;
        last = w.last;
        left = w.out.left;
        through = w.through;
        all_pass = w.all_pass;
        to_the_end = elim w.ends [
          | inl (ok, halt, positive, acts) ↦ absurd (ground (arith, e', positive))
          | inr (invalid, acts) ↦ invalid
        ];
        no_rest = ground (arith, e');
      }

  with_options-HasSucceeded :
      (o : Options) (argv : List (List ℕ)) (has_dst : Bool) (r : Replies k)
      → status (with_options k o argv has_dst r) ≡ some (pos 0)
      → HasSucceeded r 1234
  unfolding with_options request
  with_options-HasSucceeded usage argv has_dst r e = absurd (cc e)
  with_options-HasSucceeded (ack_flag ack) argv false r e = absurd (cc e)
  with_options-HasSucceeded (ack_flag ack) argv true r e =
      ask-HasSucceeded r (request k ack (get_or argv 1 [])) e

  -- If less is left behind each valid message and attribute than before it: if `main` exits with 0, then every call has succeeded, the reply has fitted into the buffer, and
  -- the loop has gone through all the valid messages that follow one another in it: none of those for this
  -- process has been NLMSG_DONE, an error with a code or an error that is too short, and nothing is left
  -- behind the last.
  pub getroute-HasSucceeded :
      (opts : List (Option ℕ)) (argv : List (List ℕ)) (has_dst : Bool) (r : Replies k)
      → status (main k opts argv has_dst r) ≡ some (pos 0)
      → HasSucceeded r 1234
  unfolding main
  getroute-HasSucceeded opts argv has_dst r e =
      with_options-HasSucceeded (take_options opts false) argv has_dst r e

  ask_stopped :
      (r : Replies k) (req : Request) (w : Walk k)
      → reply_walk r req.nlmsg_pid ≡ some w
      → is_positive k w.left ≡ true
      → (status (ask k r req) ≡ some minus_one)
  unfolding ask finish
  ask_stopped r req w returns positive = rw returns (ground arith)

  with_options_stopped :
      (o : Options) (argv : List (List ℕ)) (has_dst : Bool) (r : Replies k) (w : Walk k)
      → reply_walk r 1234 ≡ some w
      → is_positive k w.left ≡ true
      → status (with_options k o argv has_dst r) ≡ some minus_one
  unfolding with_options request
  with_options_stopped usage argv has_dst r w returns positive = refl
  with_options_stopped (ack_flag ack) argv false r w returns positive = refl
  with_options_stopped (ack_flag ack) argv true r w returns positive =
      ask_stopped r (request k ack (get_or argv 1 [])) w returns positive

  -- If less is left behind each valid message and attribute than before it: a reply in which, behind valid messages that follow one another, a valid message for this process is
  -- NLMSG_DONE, an error with a code or an error that is too short, makes `main` exit with -1.
  pub getroute_stopped :
      (opts : List (Option ℕ)) (argv : List (List ℕ)) (has_dst : Bool) (r : Replies k)
      (before : List k.Message) (h : k.Message) (left : ℤ)
      → Through k r.first r.on_recv before h left
      → k.nlmsg_ok h left ≡ true
      → halts k r.self_pid 1234 h ≡ true
      → status (main k opts argv has_dst r) ≡ some minus_one
  unfolding main
  getroute_stopped opts argv has_dst r before h left through ok halt =
      let w = reply_walk-IsWalked r 1234 in
      with_options_stopped (take_options opts false) argv has_dst r w.out w.returns (
        halted_is_positive k shorter (remaining r.on_recv + 1) r.self_pid 1234 w.out through ok halt
          w.returns)
