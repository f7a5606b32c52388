-- ===== src/Netlink/Messages.antt =====
-- The loop of `main` in c/netlink/getroute.c over the messages of a reply.
pub mod Laws
use study_tips.Base.{
  ℕ, zero, suc, ◌+◌, Bool, true, false, ◌&&◌, ◌||◌, not, Option, none, some, List, [], ◌∷◌, ltb,
  ◌==◌, if◌then◌else◌,
}
use study_tips.Base.Int.{ℤ, pos, negsuc, eqb}
use study_tips.Netlink.Macros.{Macros}
use study_tips.Netlink.Attributes.{Filtered, nl_filter_route}

module _ (k : Macros) where
  open k use {
    Message, nlmsg_ok, nlmsg_next, nlmsg_type, nlmsg_pid, nlmsg_len, error_code, nlmsg_done,
    nlmsg_error, rtm_newroute, nlmsg_length, sizeof_nlmsgerr,
  }

  -- What the loop does with one message.
  pub data Action : Type 0 where
    skip : Action  -- for another process
    ack : Action
    done : Action  -- NLMSG_DONE
    failed : Action  -- an error, or an error message that is too short
    route : Filtered k → Action

  unfoldable pub is_expected : (self_pid request_pid : ℕ) → Message → Bool
  is_expected self_pid request_pid h = not (
      nlmsg_pid h == 0
      || (not (nlmsg_pid h == 0)
          && (not (nlmsg_pid h == request_pid) && not (nlmsg_pid h == self_pid))))

  -- A route message is handed to `nl_filter_route`; `none` is a loop there that does not end.
  abbrev pub routed : Option (Filtered k) → Option Action
  routed none = none
  routed (some f) = some (route f)

  unfoldable pub act : (self_pid request_pid : ℕ) → Message → Option Action
  unfolding is_expected
  act self_pid request_pid h =
      if is_expected self_pid request_pid h
      then (if nlmsg_type h == nlmsg_done
          then some done
          else (if nlmsg_type h == nlmsg_error
              then (if ltb (nlmsg_len h) (nlmsg_length sizeof_nlmsgerr)
                  then some failed
                  else (if eqb (error_code h) (pos 0) then some ack else some failed))
              else routed (nl_filter_route k h rtm_newroute)))
      else some skip

  -- `break`
  abbrev pub stops : Action → Bool
  stops done = true
  stops failed = true
  stops _ = false

  -- What was done with the messages, and `msglen` behind the loop.
  pub record Walk : Type 0 where
    pub actions : List Action
    pub left : ℤ

  abbrev pub also : Action → Option Walk → Option Walk
  also a none = none
  also a (some w) = some (record { actions = a ∷ w.actions; left = w.left })

  -- A message that stops the loop, or else what is done with the others too.
  abbrev pub go_on : ℤ → Option Action → Option Walk → Option Walk
  go_on len none rest = none
  go_on len (some a) rest =
      if stops a then some (record { actions = a ∷ []; left = len }) else also a rest

  -- `while (NLMSG_OK(h, msglen))`; `none` is fuel that has run out, here or in `nl_filter_route`.
  unfoldable pub walk : (fuel self_pid request_pid : ℕ) → Message → ℤ → Option Walk
  walk zero self_pid request_pid h len = none
  walk (suc fuel) self_pid request_pid h len =
      let rest = walk fuel self_pid request_pid (nlmsg_next h len).0 (nlmsg_next h len).1 in
      if nlmsg_ok h len
      then go_on len (act self_pid request_pid h) rest
      else some (record { actions = []; left = len })

  abbrev pub is_positive : ℤ → Bool
  is_positive (pos zero) = false
  is_positive (pos (suc n)) = true
  is_positive (negsuc n) = false
