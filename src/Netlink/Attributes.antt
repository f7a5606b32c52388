-- ===== src/Netlink/Attributes.antt =====
-- `nl_filter_route` of c/netlink/getroute.c: the table of a route message's attributes.
use study_tips.Base.{
  ℕ, zero, suc, ◌+◌, ◌^◌, dec_lt, ◌≤◌, ◌<◌, ◌≡◌, refl, ap, ◌≢◌, ◌∙◌, ◌⊎◌, arith, true, false,
  Bool-cases, inl, inr, Option, none, some, List, [], ◌∷◌, leb, ◌==◌, if◌then◌else◌, not,
}
use study_tips.Base.Int.{ℤ, is_neg, sub_ℕ, int_sub, int_sub_near, int_sub_far}
use study_tips.Netlink.Macros.{Macros, AreShorter, remaining}

module _ (k : Macros) where
  open k use {
    Message, Attribute, rta_ok, rta_next, rta_type, rta_max, rtm_rta, nlmsg_type, nlmsg_len,
    nlmsg_length, sizeof_rtmsg,
  }

  -- `struct rtattr *tb[RTA_MAX + 1]`; `none` is NULL.
  abbrev pub Table : Type 0
  Table = ℕ → Option Attribute

  abbrev pub null_table : Table
  null_table t = none

  abbrev pub put_attribute : Table → Attribute → Table
  put_attribute tb a t =
      if leb (rta_type a) rta_max then (if rta_type a == t then some a else tb t) else tb t

  -- `while (RTA_OK(rta, len))`; `none` is fuel that has run out.
  unfoldable pub parse_attributes : ℕ → Attribute → ℤ → Table → Option Table
  parse_attributes zero a len tb = none
  parse_attributes (suc fuel) a len tb =
      let rest = parse_attributes fuel (rta_next a len).0 (rta_next a len).1 (put_attribute tb a) in
      if rta_ok a len then rest else some tb

  -- The result of `nl_filter_route`: -1, or 0 with the table that the attributes are shown from.
  pub data Filtered : Type 0 where
    refused : Filtered
    shown : Table → Filtered

  abbrev pub filtered : Option Table → Option Filtered
  filtered none = none
  filtered (some tb) = some (shown tb)

  -- `none` is a loop that has not ended when the bytes of the message are used up.
  unfoldable pub nl_filter_route : Message → ℕ → Option Filtered
  nl_filter_route n expected_msgtype =
      let len = int_sub (nlmsg_len n) (nlmsg_length sizeof_rtmsg) in
      if not (nlmsg_type n == expected_msgtype)
      then some refused
      else (if is_neg len
          then some refused
          else filtered (parse_attributes (remaining len + 1) (rtm_rta n) len null_table))

  -- The attributes from a place on, up to the first that is not valid.
  pub data Chain : Attribute → ℤ → List Attribute → Type 0 where
    end : (a : Attribute) (len : ℤ) → rta_ok a len ≡ false → Chain a len []
    more :
        (a : Attribute) (len : ℤ) {rest : List Attribute}
        → rta_ok a len ≡ true
        → Chain (rta_next a len).0 (rta_next a len).1 rest
        → Chain a len (a ∷ rest)

  -- The last attribute of a type, or else `before`.
  abbrev pub last_of : ℕ → Option Attribute → List Attribute → Option Attribute
  last_of t before [] = before
  last_of t before (a ∷ rest) = last_of t (if rta_type a == t then some a else before) rest

  -- The table that is shown holds the last attribute of each type that it has a place for.
  pub record IsShown (n : Message) (call : Option Filtered) : Type 0 where
    pub table : Table
    pub returns : call ≡ some (shown table)
    pub attributes : List Attribute
    pub chain : Chain (rtm_rta n) (sub_ℕ (nlmsg_len n) (nlmsg_length sizeof_rtmsg)) attributes
    pub last : (t : ℕ) → t ≤ rta_max → table t ≡ last_of t none attributes
    pub beyond : (t : ℕ) → rta_max < t → table t ≡ none

  record IsParsed (fuel : ℕ) (a : Attribute) (len : ℤ) (tb : Table) : Type 0 where
    result : Table
    returns : parse_attributes fuel a len tb ≡ some result
    attributes : List Attribute
    chain : Chain a len attributes
    last : (t : ℕ) → t ≤ rta_max → result t ≡ last_of t (tb t) attributes
    beyond : (t : ℕ) → rta_max < t → result t ≡ tb t

  module _ (shorter : AreShorter k) where
    open shorter use {rta_next_shorter}

    parse_attributes-IsParsed :
        (fuel : ℕ) (a : Attribute) (len : ℤ) (tb : Table)
        → remaining len < fuel
        → IsParsed fuel a len tb
    unfolding parse_attributes
    parse_attributes-IsParsed zero a len tb h = absurd (omega arith)
    parse_attributes-IsParsed (suc fuel) a len tb h = elim (Bool-cases (rta_ok a len)) [
      | inl valid ↦
          let ih =
            parse_attributes-IsParsed fuel (rta_next a len).0 (rta_next a len).1
              (put_attribute tb a) (omega (arith, rta_next_shorter a len valid)) in
          record {
            result = ih.result;
            returns = rw valid ih.returns;
            attributes = a ∷ ih.attributes;
            chain = more a len valid ih.chain;
            last = λ t le.
                let same : put_attribute tb a t ≡ (if rta_type a == t then some a else tb t) =
                  ground arith in
                ih.last t le ∙ ap (λ before. last_of t before ih.attributes) same;
            beyond = λ t lt. ground (arith, ih.beyond t lt);
          }
      | inr invalid ↦ record {
        result = tb;
        returns = rw invalid;
        attributes = [];
        chain = end a len invalid;
        last = λ t le. refl;
        beyond = λ t lt. refl;
      }
    ]

    -- It always returns, whatever the message is.
    pub nl_filter_route_returns :
        (n : Message) (expected : ℕ) → (f : Filtered) × (nl_filter_route n expected ≡ some f)
    unfolding nl_filter_route
    nl_filter_route_returns n expected =
        let len = int_sub (nlmsg_len n) (nlmsg_length sizeof_rtmsg) in
        let parsed =
          parse_attributes-IsParsed (remaining len + 1) (rtm_rta n) len null_table (omega arith) in
        elim (Bool-cases (nlmsg_type n == expected)) [
          | inl same ↦ elim (Bool-cases (is_neg len)) [
            | inl short ↦ (refused, rw (same, short) refl)
            | inr enough ↦ (shown parsed.result, rw (same, enough, parsed.returns) refl)
          ]
          | inr other ↦ (refused, rw other refl)
        ]

    -- If less is left behind each valid attribute than before it: on a message whose length is a uint32_t, with a header below 2 ^ 31 bytes, `nl_filter_route` refuses
    -- exactly the messages of another type, those too short for a route, and those with 2 ^ 31 bytes or
    -- more behind the headers; of any other it shows, for each type, the last of the valid attributes that
    -- follow one another in the message.
    pub nl_filter_route-IsShown :
        (n : Message) (expected : ℕ)
        → nlmsg_len n < 2 ^ 32
        → nlmsg_length sizeof_rtmsg ≤ 2 ^ 31
        → ((nl_filter_route n expected ≡ some refused)
            × ((nlmsg_type n ≢ expected)
                ⊎ ((nlmsg_len n < nlmsg_length sizeof_rtmsg)
                    ⊎ (nlmsg_length sizeof_rtmsg + 2 ^ 31 ≤ nlmsg_len n))))
          ⊎ ((nlmsg_type n ≡ expected)
              × (nlmsg_length sizeof_rtmsg ≤ nlmsg_len n)
              × (nlmsg_len n < nlmsg_length sizeof_rtmsg + 2 ^ 31)
              × IsShown n (nl_filter_route n expected))
    unfolding nl_filter_route
    nl_filter_route-IsShown n expected word small =
        let head = nlmsg_length sizeof_rtmsg in
        elim (Bool-cases (nlmsg_type n == expected)) [
          | inr other ↦ inl (rw other refl, inl (ground arith))
          | inl same ↦ elim (dec_lt (nlmsg_len n) (head + 2 ^ 31)) [
            | no far ↦
                let negative = int_sub_far (nlmsg_len n) head word (omega arith) in
                inl (rw (same, negative) refl, inr (inr (omega arith)))
            | yes near ↦
                let len = sub_ℕ (nlmsg_len n) head in
                let as_int = int_sub_near (nlmsg_len n) head small near in
                let parsed =
                  parse_attributes-IsParsed (remaining len + 1) (rtm_rta n) len null_table
                    (omega arith) in
                elim (Bool-cases (is_neg len)) [
                  | inl short ↦ inl (rw (same, as_int, short) refl, inr (inl (ground arith)))
                  | inr enough ↦ inr (
                    ground arith,
                    ground arith,
                    near,
                    record {
                      table = parsed.result;
                      returns = rw (same, as_int, enough, parsed.returns) refl;
                      attributes = parsed.attributes;
                      chain = parsed.chain;
                      last = parsed.last;
                      beyond = parsed.beyond;
                    },
                  )
                ]
          ]
        ]
