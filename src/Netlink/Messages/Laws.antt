-- ===== src/Netlink/Messages/Laws.antt =====
-- How the loop over the messages ends.
use study_tips.Base.{
  ℕ, zero, suc, ◌<◌, ◌≡◌, ◌⊎◌, refl, arith, Bool, true, false, not, ◌&&◌, ◌||◌, Bool-cases, inl,
  inr, Option, some, none, List, [], ◌∷◌, ◌++◌, ltb, ◌==◌,
}
use study_tips.Base.Int.{ℤ, pos, negsuc, eqb}
use study_tips.Netlink.Macros.{Macros, AreShorter, remaining}
use study_tips.Netlink.Attributes.{nl_filter_route_returns}
use study_tips.Netlink.Messages.{
  Action, skip, done, ack, failed, route, is_expected, act, stops, also, Walk, walk, is_positive,
}

module _ (k : Macros) where
  open k use {
    Message, nlmsg_ok, nlmsg_next, nlmsg_len, nlmsg_type, nlmsg_pid, error_code, nlmsg_done,
    nlmsg_error, nlmsg_length, sizeof_nlmsgerr,
  }

  -- A message for this process that ends a reply: NLMSG_DONE, or an error that is too short or has a
  -- code, as one without is an acknowledgement.
  abbrev pub is_ours : (self_pid request_pid : ℕ) → Message → Bool
  is_ours self_pid request_pid h =
      not (nlmsg_pid h == 0) && (nlmsg_pid h == request_pid || nlmsg_pid h == self_pid)

  abbrev pub is_error : Message → Bool
  is_error h =
      nlmsg_type h == nlmsg_error
      && (ltb (nlmsg_len h) (nlmsg_length sizeof_nlmsgerr) || not (eqb (error_code h) (pos 0)))

  abbrev pub halts : (self_pid request_pid : ℕ) → Message → Bool
  halts self_pid request_pid h =
      is_ours self_pid request_pid h && (nlmsg_type h == nlmsg_done || is_error h)

  -- The valid messages that follow one another from a place on, up to another place.
  pub data Through : Message → ℤ → List Message → Message → ℤ → Type 0 where
    here : (h : Message) (len : ℤ) → Through h len [] h len
    next :
        (h : Message) (len : ℤ) {hs : List Message} {last : Message} {left : ℤ}
        → nlmsg_ok h len ≡ true
        → Through (nlmsg_next h len).0 (nlmsg_next h len).1 hs last left
        → Through h len (h ∷ hs) last left

  -- No message of a list ends the reply.
  abbrev pub AllPass : (self_pid request_pid : ℕ) → List Message → Type 0
  AllPass self_pid request_pid [] = Unit
  AllPass self_pid request_pid (h ∷ hs) =
      (halts self_pid request_pid h ≡ false) × AllPass self_pid request_pid hs

  -- What is done with the messages of a list, one after the other.
  abbrev pub AreDone : (self_pid request_pid : ℕ) → List Message → List (Action k) → Type 0
  AreDone self_pid request_pid [] [] = Unit
  AreDone self_pid request_pid [] (a ∷ acts) = ⊥
  AreDone self_pid request_pid (h ∷ hs) [] = ⊥
  AreDone self_pid request_pid (h ∷ hs) (a ∷ acts) =
      (act k self_pid request_pid h ≡ some a) × AreDone self_pid request_pid hs acts

  -- A walk from a place on. It goes through valid messages that do not end the reply, and comes to a
  -- place that it leaves the bytes of: the first message that does end it, which is valid, so that some
  -- bytes are left; or the first that is not valid.
  pub record IsWalked (self_pid request_pid : ℕ) (h : Message) (len : ℤ) (call : Option (Walk k))
      : Type 0 where
    pub out : Walk k
    pub returns : call ≡ some out
    pub passed : List Message
    pub last : Message
    pub through : Through h len passed last out.left
    pub all_pass : AllPass self_pid request_pid passed
    pub ends :
        ((nlmsg_ok last out.left ≡ true)
          × (halts self_pid request_pid last ≡ true)
          × (is_positive k out.left ≡ true)
          × AreDone self_pid request_pid (passed ++ last ∷ []) out.actions)
        ⊎ ((nlmsg_ok last out.left ≡ false) × AreDone self_pid request_pid passed out.actions)

  -- One message is dealt with, and ends the loop just if it ends the reply.
  record IsActed (self_pid request_pid : ℕ) (h : Message) : Type 0 where
    action : Action k
    returns : act k self_pid request_pid h ≡ some action
    stopping : stops k action ≡ halts self_pid request_pid h

module _ (k : Macros) (shorter : AreShorter k) where
  open k use {
    Message, nlmsg_ok, nlmsg_next, nlmsg_len, nlmsg_type, error_code, nlmsg_done, nlmsg_error,
    nlmsg_length, sizeof_nlmsgerr, rtm_newroute,
  }
  open shorter use {nlmsg_next_shorter}

  act-IsActed : (self_pid request_pid : ℕ) (h : Message) → IsActed k self_pid request_pid h
  unfolding act is_expected
  act-IsActed self_pid request_pid h =
      let (f, filtered) = nl_filter_route_returns k shorter h rtm_newroute in
      elim (Bool-cases (is_ours k self_pid request_pid h)) [
        | inr other ↦ record {
          action = skip;
          returns = ground (arith, other);
          stopping = ground (arith, other);
        }
        | inl ours ↦ elim (Bool-cases (nlmsg_type h == nlmsg_done)) [
          | inl over ↦ record {
            action = done;
            returns = ground (arith, ours, over);
            stopping = ground (arith, ours, over);
          }
          | inr more ↦ elim (Bool-cases (nlmsg_type h == nlmsg_error)) [
            | inr plain ↦ record {
              action = route f;
              returns = rw filtered (ground (arith, ours, more, plain));
              stopping = ground (arith, ours, more, plain);
            }
            | inl error ↦
                elim (Bool-cases (
                  ltb (nlmsg_len h) (nlmsg_length sizeof_nlmsgerr)
                  || not (eqb (error_code h) (pos 0)))) [
                    | inl bad ↦ record {
                      action = failed;
                      returns = ground (arith, ours, more, error, bad);
                      stopping = ground (arith, ours, more, error, bad);
                    }
                    | inr good ↦ record {
                      action = ack;
                      returns = ground (arith, ours, more, error, good);
                      stopping = ground (arith, ours, more, error, good);
                    }
                  ]
          ]
        ]
      ]

  positive_of_shorter : (a b : ℤ) → remaining a < remaining b → is_positive k b ≡ true
  positive_of_shorter a (pos zero) h = absurd (omega arith)
  positive_of_shorter a (pos (suc n)) h = refl
  positive_of_shorter a (negsuc n) h = absurd (omega arith)

  -- A valid message has some bytes.
  valid_is_positive : (h : Message) (len : ℤ) → nlmsg_ok h len ≡ true → is_positive k len ≡ true
  valid_is_positive h len valid =
      positive_of_shorter (nlmsg_next h len).1 len (nlmsg_next_shorter h len valid)

  -- If less is left behind each valid message and attribute than before it: with fuel above the bytes that
  -- are left, the loop ends, and so does `nl_filter_route` on each of its
  -- messages. It goes through the valid messages that follow one another, and deals with them in order,
  -- up to the first that ends the reply, which is NLMSG_DONE or an error for this process, and then some
  -- bytes are left; or else up to a place that NLMSG_OK refuses.
  pub walk-IsWalked :
      (fuel self_pid request_pid : ℕ) (h : Message) (len : ℤ)
      → remaining len < fuel
      → IsWalked k self_pid request_pid h len (walk k fuel self_pid request_pid h len)
  unfolding walk
  walk-IsWalked zero self_pid request_pid h len lt = absurd (omega arith)
  walk-IsWalked (suc fuel) self_pid request_pid h len lt = elim (Bool-cases (nlmsg_ok h len)) [
    | inl valid ↦
        let a = act-IsActed self_pid request_pid h in
        elim (Bool-cases (stops k a.action)) [
          | inl stop ↦ record {
            out = record { actions = a.action ∷ []; left = len };
            returns = rw (valid, a.returns, stop) refl;
            passed = [];
            last = h;
            through = here h len;
            all_pass = tt;
            ends =
                inl (valid, cc (a.stopping, stop), valid_is_positive h len valid, (a.returns, tt));
          }
          | inr go ↦
              let ih =
                walk-IsWalked fuel self_pid request_pid (nlmsg_next h len).0 (nlmsg_next h len).1
                  (omega (arith, nlmsg_next_shorter h len valid)) in
              record {
                out = record { actions = a.action ∷ ih.out.actions; left = ih.out.left };
                returns = rw (valid, a.returns, go, ih.returns) refl;
                passed = h ∷ ih.passed;
                last = ih.last;
                through = next h len valid ih.through;
                all_pass = (cc (a.stopping, go), ih.all_pass);
                ends = elim ih.ends [
                  | inl (ok, halt, positive, acts) ↦ inl (ok, halt, positive, (a.returns, acts))
                  | inr (refused, acts) ↦ inr (refused, (a.returns, acts))
                ];
              }
        ]
    | inr invalid ↦ record {
      out = record { actions = []; left = len };
      returns = rw invalid refl;
      passed = [];
      last = h;
      through = here h len;
      all_pass = tt;
      ends = inr (invalid, tt);
    }
  ]

  -- What is left behind the rest is left.
  also_left :
      (a : Action k) (o : Option (Walk k)) (w : Walk k)
      → also k a o ≡ some w
      → (v : Walk k) × (o ≡ some v) × (v.left ≡ w.left)
  also_left a none w e = absurd (cc e)
  also_left a (some v) w e = (v, refl, ground (arith, e))

  -- A loop that stops at its first message, and one that does not.
  stopped_left :
      (fuel self_pid request_pid : ℕ) (h : Message) (len : ℤ) (w : Walk k)
      → nlmsg_ok h len ≡ true
      → halts k self_pid request_pid h ≡ true
      → walk k (suc fuel) self_pid request_pid h len ≡ some w
      → w.left ≡ len
  unfolding walk
  stopped_left fuel self_pid request_pid h len w ok halt e =
      let a = act-IsActed self_pid request_pid h in
      let stop : stops k a.action ≡ true = cc (a.stopping, halt) in
      let e' = rw (ok, a.returns, stop) at e in ground (arith, e')

  passed_left :
      (fuel self_pid request_pid : ℕ) (h : Message) (len : ℤ) (w : Walk k)
      → nlmsg_ok h len ≡ true
      → halts k self_pid request_pid h ≡ false
      → walk k (suc fuel) self_pid request_pid h len ≡ some w
      → (v : Walk k) × (walk k fuel self_pid request_pid (nlmsg_next h len).0 (nlmsg_next h len).1
          ≡ some v)
        × (v.left ≡ w.left)
  unfolding walk
  passed_left fuel self_pid request_pid h len w ok halt e =
      let a = act-IsActed self_pid request_pid h in
      let go : stops k a.action ≡ false = cc (a.stopping, halt) in
      let rest = walk k fuel self_pid request_pid (nlmsg_next h len).0 (nlmsg_next h len).1 in
      also_left a.action rest w (rw (ok, a.returns, go) at e)

  no_fuel :
      (self_pid request_pid : ℕ) (h : Message) (len : ℤ) (w : Walk k)
      → ¬ (walk k zero self_pid request_pid h len ≡ some w)
  unfolding walk
  no_fuel self_pid request_pid h len w e = absurd (cc e)

  -- A loop that has a valid message before it which ends the reply leaves some bytes.
  pub halted_is_positive :
      (fuel self_pid request_pid : ℕ) {h : Message} {len : ℤ} {hs : List Message} {m : Message}
      {left : ℤ} (w : Walk k)
      → Through k h len hs m left
      → nlmsg_ok m left ≡ true
      → halts k self_pid request_pid m ≡ true
      → walk k fuel self_pid request_pid h len ≡ some w
      → is_positive k w.left ≡ true
  halted_is_positive zero self_pid request_pid {h = h} {len = len} w t ok halt e =
      absurd (no_fuel self_pid request_pid h len w e)
  halted_is_positive (suc fuel) self_pid request_pid w (here h len) ok halt e =
      rw (stopped_left fuel self_pid request_pid h len w ok halt e) (valid_is_positive h len ok)
  halted_is_positive (suc fuel) self_pid request_pid w (next h len valid t) ok halt e =
      elim (Bool-cases (halts k self_pid request_pid h)) [
        | inl now ↦
            rw (stopped_left fuel self_pid request_pid h len w valid now e)
              (valid_is_positive h len valid)
        | inr later ↦
            let (v, returns, same) = passed_left fuel self_pid request_pid h len w valid later e in
            rw (← same) (halted_is_positive fuel self_pid request_pid v t ok halt returns)
      ]
