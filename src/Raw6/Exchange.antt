-- ===== src/Raw6/Exchange.antt =====
-- What c/raw6/server.c prints of the datagrams that c/raw6/rawudp.c sends to it, if the kernel hands on
-- each one as it was sent.
mod Tests
use study_tips.Base.{
  ℕ, ◌+◌, ◌<◌, ◌≤◌, ◌≡◌, refl, ap, ap₂, ◌∙◌, sym, arith, Bool, true, false, Option, some, List, [],
  ◌∷◌, ◌++◌, length, if◌then◌else◌,
}
use study_tips.Base.Int.{is_neg}
use study_tips.Header.Memory.{Mem, byte, IsBytes, byte-replicate_zero}
use study_tips.Header.Checksums.Words.{field16}
use study_tips.Os.{Run}
use study_tips.Os.Sockets.{Call}
use study_tips.Raw6.RawUdp.{Replies, Settings, run_with}
use study_tips.Raw6.RawUdp.Main.{HasAddresses}
use study_tips.Raw6.RawUdp.Datagram.{sent, SendsAccepted}
use study_tips.Raw6.RawUdp.Sent.{from_of, to_of, most_content, run_with-SendsAccepted}
use study_tips.Raw6.Server.{ab_pkt_info, flip, Shown, show_all}
use study_tips.Raw6.Server.Shows.{
  over, length-over, byte-over_new, line_of, lines, AllBytes, show_all-lines,
}

-- A run of rawudp that sends its buffer over IPv6, with so much content that the place of the ports
-- behind another header is inside it.
pub record CanSend (r : Replies) (s : Settings) : Type 0 where
  pub addresses : HasAddresses s
  pub over_ipv6 : s.is_v4 ≡ false
  pub bytes_from : IsBytes (from_of s)
  pub bytes_to : IsBytes (to_of s)
  pub opened : is_neg r.on_socket ≡ false
  pub bound : is_neg r.on_bind ≡ false
  pub plain : s.iovec_flag ≡ false
  pub fits : s.content_len ≤ most_content s
  pub long : 36 ≤ s.content_len

abbrev pub AllCanSend : List (Replies × Settings) → Type 0
AllCanSend [] = Unit
AllCanSend ((r, s) ∷ runs) = CanSend r s × AllCanSend runs

-- The datagrams of all runs, one behind the other, without the addresses that they go to.
abbrev pub datagrams : List (List ℕ × List ℕ) → List (List ℕ)
datagrams [] = []
datagrams ((to, bytes) ∷ packets) = bytes ∷ datagrams packets

abbrev pub packets_of : List (Replies × Settings) → List (List ℕ)
packets_of [] = []
packets_of ((r, s) ∷ runs) = datagrams (sent (run_with r s)) ++ packets_of runs

-- The ports of the datagram where there is no header, and zeros of its content behind one.
abbrev pub line : ℕ → Shown
line hdrincl = record {
  hdrincl = hdrincl;
  src_port = 0;
  dst_port = 0;
  src_port_no_header = 12760;
  dst_port_no_header = 22760;
}

abbrev pub shown_lines : ℕ → List (Replies × Settings) → List Shown
shown_lines hdrincl [] = []
shown_lines hdrincl (run ∷ runs) = line hdrincl ∷ shown_lines (flip hdrincl) runs

-- A line of a packet that is long enough does not depend on what the buffer has held.
field16-over :
    (xs : List ℕ) (m : Mem) (p : ℕ)
    → p + 2 ≤ length xs
    → p + 2 ≤ length m
    → field16 (over xs m) p ≡ field16 xs p
field16-over xs m p h1 h2 = omega (
  arith,
  byte-over_new xs m p (omega arith) (omega arith),
  byte-over_new xs m (p + 1) (omega arith) (omega arith),
)

line_lem :
    (from to : List ℕ) (content_len hdrincl : ℕ) (m : Mem) {run : Run Call}
    → 44 ≤ length m
    → 36 ≤ content_len
    → (d : SendsAccepted from to content_len run)
    → line_of (over d.datagram m) hdrincl ≡ line hdrincl
line_lem from to content_len hdrincl m h long d =
    let at : (p : ℕ) → p + 2 ≤ 44 → field16 (over d.datagram m) p ≡ field16 d.datagram p =
      λ p l. field16-over d.datagram m p (omega (arith, d.whole)) (omega arith) in
    let content : (i : ℕ) → i < content_len → byte d.datagram (8 + i) ≡ 0 = d.content in
    ground (
      arith,
      at 0 (omega arith) ∙ d.source_port,
      at 2 (omega arith) ∙ d.destination_port,
      at 40 (omega arith),
      at 42 (omega arith),
      content 32 (omega arith),
      content 33 (omega arith),
      content 34 (omega arith),
      content 35 (omega arith),
    )

lines-shown :
    (runs : List (Replies × Settings)) (m : Mem) (hdrincl : ℕ)
    → 44 ≤ length m
    → AllCanSend runs
    → (lines m hdrincl (packets_of runs) ≡ shown_lines hdrincl runs) × AllBytes (packets_of runs)
lines-shown [] m hdrincl h all = (refl, all)
lines-shown ((r, s) ∷ runs) m hdrincl h (can, all) =
    let d =
      run_with-SendsAccepted r s can.addresses can.bytes_from can.bytes_to can.opened can.bound
        can.plain can.fits in
    let m' = over d.datagram m in
    let (rest, bytes) =
      lines-shown runs m' (flip hdrincl) (omega (arith, length-over d.datagram m)) all in
    rw d.sends (
      ap₂ (λ l ls. l ∷ ls) (line_lem (from_of s) (to_of s) s.content_len hdrincl m h can.long d)
          rest,
      (d.bytes, bytes),
    )

-- Of runs of rawudp that send 36 bytes of content or more over IPv6, the server prints one line for each,
-- if it receives what they send, in their order: with ports 12760 and 22760 where there is no IP header,
-- with the zeros of the content behind one, and with its option 0, 1, 0, ...
pub show_all-packets_of :
    (runs : List (Replies × Settings))
    → AllCanSend runs
    → show_all ab_pkt_info 0 (packets_of runs) ≡ some (shown_lines 0 runs)
show_all-packets_of runs all =
    let (same, bytes) = lines-shown runs ab_pkt_info 0 (omega arith) all in
    show_all-lines ab_pkt_info 0 (packets_of runs) (omega arith)
      (λ i. omega (arith, byte-replicate_zero 4096 i)) bytes
    ∙ ap some same
