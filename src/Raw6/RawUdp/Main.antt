-- ===== src/Raw6/RawUdp/Main.antt =====
-- Whole runs of c/raw6/rawudp.c.
use study_tips.Base.{
  ℕ, ◌+◌, ◌≤◌, ◌≡◌, inl, inr, refl, arith, length, Option, none, some, List, [], ◌∷◌, Bool,
  Option-cases, replicate,
}
use study_tips.Base.Int.{ℤ, pos, eqb_refl}
use study_tips.Header.Block.{slice-Reads}
use study_tips.Os.{Run, exit, ◌▸◌, left_open, exits, IsClean}
use study_tips.Os.Sockets.{Call, close, call_descriptors}
use study_tips.Raw6.RawUdp.{
  Replies, Inet, Opt, iovec, v4, unknown, source, destination, content, Settings, take_option,
  take_options, default_settings, run_with, main, send_v6, send_v4, ab_pkt_info, or_else,
}
use study_tips.Raw6.RawUdp.Packet.{packet_v6-IsPacket, packet_v4-IsPacket, ab_pkt_info-IsFramed}
use study_tips.Raw6.RawUdp.Payload.{gather_v6-IsMismatched, gather_v4-IsMismatched}

-- A run that makes some calls, opens and closes nothing by them, and goes on as `rest`.
abbrev pub GoesOn : Run Call → Run Call → Type 0
GoesOn rest run =
    (exits run ≡ exits rest) × ((fds : List ℤ) → left_open fds run ≡ left_open fds rest)

module _ (r : Replies) (sock : ℤ) (from to : List ℕ) (iovec_flag : Bool) (content_len : ℕ)
    (rest : Run Call) where
  pub send_v6-GoesOn :
      length from ≡ 16
      → length to ≡ 16
      → content_len ≤ 4048
      → GoesOn rest (send_v6 r sock from to iovec_flag content_len rest)
  unfolding send_v6
  send_v6-GoesOn hf ht small =
      let packet =
        packet_v6-IsPacket ab_pkt_info from to content_len (ab_pkt_info-IsFramed 48) hf ht small in
      let gathered = gather_v6-IsMismatched packet.out packet.framed in
      let read = slice-Reads (8 + content_len) packet.out 40 (omega (arith, packet.framed.size)) in
      rw (packet.returns, gathered.returns, read.returns) (ground arith)

  pub send_v4-GoesOn :
      length from ≡ 4
      → length to ≡ 4
      → content_len ≤ 4068
      → GoesOn rest (send_v4 r sock from to iovec_flag content_len rest)
  unfolding send_v4
  send_v4-GoesOn hf ht small =
      let packet =
        packet_v4-IsPacket ab_pkt_info from to content_len (ab_pkt_info-IsFramed 28) hf ht small in
      let gathered = gather_v4-IsMismatched packet.out packet.framed in
      let read = slice-Reads (8 + content_len) packet.out 20 (omega (arith, packet.framed.size)) in
      rw (packet.returns, gathered.returns, read.returns) (ground arith)

-- Addresses of the families' sizes.
pub record HasAddresses (s : Settings) : Type 0 where
  pub from6 : length s.from ≡ 16
  pub to6 : length s.to ≡ 16
  pub from4 : length s.from4 ≡ 4
  pub to4 : length s.to4 ≡ 4

run_with-IsClean :
    (r : Replies) (s : Settings) → HasAddresses s → s.content_len ≤ 4048 → IsClean (run_with r s)
unfolding run_with
run_with-IsClean r s h small =
    let end = close r.on_socket ▸ exit (pos 0) in
    let (exits6, open6) =
      send_v6-GoesOn r r.on_socket s.from s.to s.iovec_flag s.content_len end h.from6 h.to6 small in
    let (exits4, open4) =
      send_v4-GoesOn r r.on_socket s.from4 s.to4 s.iovec_flag s.content_len end h.from4 h.to4
        (omega arith) in
    ground (
      arith,
      eqb_refl r.on_socket,
      exits6,
      exits4,
      open6 (r.on_socket ∷ []),
      open4 (r.on_socket ∷ []),
    )

-- `inet_pton` writes addresses of the family's size.
pub record HasSizes (inet : Inet) : Type 0 where
  pub size6 : (text a : List ℕ) → inet.pton6 text ≡ some a → length a ≡ 16
  pub size4 : (text a : List ℕ) → inet.pton4 text ≡ some a → length a ≡ 4

pub or_else_size :
    (n : ℕ) (o : Option (List ℕ)) (b : List ℕ)
    → ((a : List ℕ) → o ≡ some a → length a ≡ n)
    → length b ≡ n
    → length (or_else o b) ≡ n
or_else_size n none b h hb = hb
or_else_size n (some a) b h hb = h a refl

module _ (inet : Inet) (sizes : HasSizes inet) where
  default_settings-HasAddresses :
      (from to from4 to4 : List ℕ) → HasAddresses (default_settings inet from to from4 to4)
  unfolding default_settings
  default_settings-HasAddresses from to from4 to4 = record {
    from6 = or_else_size 16 (inet.pton6 from) (replicate 16 0) (sizes.size6 from) refl;
    to6 = or_else_size 16 (inet.pton6 to) (replicate 16 0) (sizes.size6 to) refl;
    from4 = or_else_size 4 (inet.pton4 from4) (replicate 4 0) (sizes.size4 from4) refl;
    to4 = or_else_size 4 (inet.pton4 to4) (replicate 4 0) (sizes.size4 to4) refl;
  }

  take_option-HasAddresses :
      (o : Opt) (s t : Settings) → HasAddresses s → take_option inet o s ≡ some t → HasAddresses t
  unfolding take_option
  take_option-HasAddresses iovec s t h e = ground arith
  take_option-HasAddresses v4 s t h e = ground arith
  take_option-HasAddresses unknown s t h e = absurd (cc)
  take_option-HasAddresses (source text) s t h e = ground (
    arith,
    or_else_size 16 (inet.pton6 text) s.from (sizes.size6 text) h.from6,
    or_else_size 4 (inet.pton4 text) s.from4 (sizes.size4 text) h.from4,
  )
  take_option-HasAddresses (destination text) s t h e = ground (
    arith,
    or_else_size 16 (inet.pton6 text) s.to (sizes.size6 text) h.to6,
    or_else_size 4 (inet.pton4 text) s.to4 (sizes.size4 text) h.to4,
  )
  take_option-HasAddresses (content text) s t h e = ground arith

  take_options-HasAddresses :
      (os : List Opt) (s t : Settings)
      → HasAddresses s
      → take_options inet os s ≡ some t
      → HasAddresses t
  unfolding take_options
  take_options-HasAddresses [] s t h e = ground arith
  take_options-HasAddresses (o ∷ os) s t h e = elim (Option-cases (take_option inet o s)) [
    | inl bad ↦ absurd (cc bad)
    | inr (u, good) ↦
        take_options-HasAddresses os u t (take_option-HasAddresses o s u h good) (rw good at e)
  ]

  -- Whatever the arguments and the kernel's answers are: `main` exits and leaves no descriptor open,
  -- unless the options set a content length of more than 4048.
  pub rawudp-IsClean :
      (from to from4 to4 : List ℕ) (opts : List Opt) (r : Replies)
      → ((s : Settings)
          → take_options inet opts (default_settings inet from to from4 to4) ≡ some s
          → s.content_len ≤ 4048)
      → IsClean (main inet from to from4 to4 opts r)
  unfolding main
  rawudp-IsClean from to from4 to4 opts r small =
      elim (Option-cases (take_options inet opts (default_settings inet from to from4 to4))) [
        | inl bad ↦ rw (bad, main) (refl, refl)
        | inr (s, good) ↦
            rw (good, main)
              (run_with-IsClean r s
                (take_options-HasAddresses opts (default_settings inet from to from4 to4) s
                  (default_settings-HasAddresses from to from4 to4) good)
                (small s good))
      ]
