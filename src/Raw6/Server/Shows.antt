-- ===== src/Raw6/Server/Shows.antt =====
-- What c/raw6/server.c prints of the packets that it receives.
use Prim.Native.Nat.{min}
use study_tips.Base.{
  ℕ, zero, suc, dec_lt, ◌+◌, ◌≤◌, ◌<◌, ◌≡◌, refl, ap, ◌∙◌, arith, inr, sym, ap₂, Option, some, List,
  [], ◌∷◌, length, take, length-take,
}
use study_tips.Header.Memory.{Mem, byte, IsBytes, htons}
use study_tips.Header.Block.Fields.{word, load_le-word}
use study_tips.Header.Block.Writes.{copy-Writes}
use study_tips.Header.Checksums.Words.{field16}
use study_tips.Raw6.Server.{flip, receive, Shown, show, show_all}

-- A buffer after a packet: the packet's bytes, and those before behind them.
pub record IsReceived (m : Mem) (packet : List ℕ) (call : Option Mem) : Type 0 where
  pub out : Mem
  pub returns : call ≡ some out
  pub same_length : length out ≡ length m
  pub bytes : IsBytes out
  pub new : (i : ℕ) → i < length packet → i < length m → byte out i ≡ byte packet i
  pub old : (i : ℕ) → length packet ≤ i → byte out i ≡ byte m i

byte-take : (n : ℕ) (xs : List ℕ) (i : ℕ) → i < n → byte (take n xs) i ≡ byte xs i
byte-take zero xs i h = absurd (omega arith)
byte-take (suc n) [] i h = refl
byte-take (suc n) (x ∷ xs) zero h = refl
byte-take (suc n) (x ∷ xs) (suc i) h = byte-take n xs i (omega arith)

pub receive-IsReceived :
    (m : Mem) (packet : List ℕ)
    → IsBytes m
    → IsBytes packet
    → IsReceived m packet (receive m packet)
unfolding receive
receive-IsReceived m packet hm hp =
    let part = take (length m) packet in
    let size : length part ≡ min (length m) (length packet) = length-take (length m) packet in
    let w = copy-Writes m 0 part (omega (arith, size)) in
    let fresh : (i : ℕ) → i < length packet → i < length m → byte w.out i ≡ byte packet i =
      λ i l1 l2.
        let place : byte w.out i ≡ byte w.out (0 + i) = ap (byte w.out) (omega arith) in
        omega (
          arith,
          place,
          w.written i (omega (arith, size)),
          byte-take (length m) packet i l2,
          hp i,
        ) in
    let kept : (i : ℕ) → length part ≤ i → byte w.out i ≡ byte m i =
      λ i l. w.others i (inr (omega arith)) in
    record {
      out = w.out;
      returns = w.returns;
      same_length = w.same_length;
      bytes = λ i. elim (dec_lt i (length part)) [
        | yes l ↦ omega (arith, size, fresh i (omega (arith, size)) (omega (arith, size)), hp i)
        | no l ↦ omega (arith, kept i (omega arith), hm i)
      ];
      new = fresh;
      old = λ i l. kept i (omega (arith, size));
    }

htons-word : (m : Mem) (p : ℕ) → IsBytes m → htons (word 2 m p) ≡ field16 m p
unfolding word
htons-word m p b = omega (arith, b p, b (p + 1))

-- The line that a buffer gives.
abbrev pub line_of : Mem → ℕ → Shown
line_of m hdrincl = record {
  hdrincl = hdrincl;
  src_port = field16 m 40;
  dst_port = field16 m 42;
  src_port_no_header = field16 m 0;
  dst_port_no_header = field16 m 2;
}

show-line_of :
    (m : Mem) (hdrincl : ℕ) → 44 ≤ length m → IsBytes m → show m hdrincl ≡ some (line_of m hdrincl)
unfolding show
show-line_of m hdrincl h b =
    rw
      (
        load_le-word 2 m 40 (omega arith),
        load_le-word 2 m 42 (omega arith),
        load_le-word 2 m 0 (omega arith),
        load_le-word 2 m 2 (omega arith),
        htons-word m 40 b,
        htons-word m 42 b,
        htons-word m 0 b,
        htons-word m 2 b,
      )
      refl

-- A packet over a buffer, as lists.
abbrev pub over : List ℕ → Mem → Mem
over [] m = m
over (x ∷ xs) [] = []
over (x ∷ xs) (y ∷ m) = x ∷ over xs m

pub length-over : (xs : List ℕ) (m : Mem) → length (over xs m) ≡ length m
length-over [] m = refl
length-over (x ∷ xs) [] = refl
length-over (x ∷ xs) (y ∷ m) = ap suc (length-over xs m)

pub byte-over_new :
    (xs : List ℕ) (m : Mem) (i : ℕ) → i < length xs → i < length m → byte (over xs m) i ≡ byte xs i
byte-over_new [] m i h1 h2 = absurd (omega arith)
byte-over_new (x ∷ xs) [] i h1 h2 = absurd (omega arith)
byte-over_new (x ∷ xs) (y ∷ m) zero h1 h2 = refl
byte-over_new (x ∷ xs) (y ∷ m) (suc i) h1 h2 = byte-over_new xs m i (omega arith) (omega arith)

byte-over_old : (xs : List ℕ) (m : Mem) (i : ℕ) → length xs ≤ i → byte (over xs m) i ≡ byte m i
byte-over_old [] m i h = refl
byte-over_old (x ∷ xs) [] i h = refl
byte-over_old (x ∷ xs) (y ∷ m) zero h = absurd (omega arith)
byte-over_old (x ∷ xs) (y ∷ m) (suc i) h = byte-over_old xs m i (omega arith)

-- Memories with the same bytes.
memory_ext :
    (a b : Mem) → length a ≡ length b → ((i : ℕ) → i < length a → byte a i ≡ byte b i) → a ≡ b
memory_ext [] [] h same = refl
memory_ext [] (y ∷ b) h same = absurd (omega arith)
memory_ext (x ∷ a) [] h same = absurd (omega arith)
memory_ext (x ∷ a) (y ∷ b) h same =
    ap₂ (λ u v. u ∷ v) (same 0 (omega arith))
      (memory_ext a b (omega arith) (λ i l. same (suc i) (omega arith)))

receive-over :
    (m : Mem) (packet : List ℕ)
    → IsBytes m
    → IsBytes packet
    → (receive m packet ≡ some (over packet m)) × IsBytes (over packet m)
receive-over m packet hm hp =
    let r = receive-IsReceived m packet hm hp in
    let same : r.out ≡ over packet m =
      memory_ext r.out (over packet m) (omega (arith, r.same_length, length-over packet m)) (λ i l.
        elim (dec_lt i (length packet)) [
          | yes n ↦
              r.new i n (omega (arith, r.same_length))
              ∙ sym (byte-over_new packet m i n (omega (arith, r.same_length)))
          | no n ↦ r.old i (omega arith) ∙ sym (byte-over_old packet m i (omega arith))
        ]) in
    (r.returns ∙ ap some same, rw (← same) r.bytes)

-- The lines for packets, each over what the ones before it have left.
abbrev pub lines : Mem → ℕ → List (List ℕ) → List Shown
lines m hdrincl [] = []
lines m hdrincl (packet ∷ packets) =
    line_of (over packet m) hdrincl ∷ lines (over packet m) (flip hdrincl) packets

abbrev pub AllBytes : List (List ℕ) → Type 0
AllBytes [] = Unit
AllBytes (packet ∷ packets) = IsBytes packet × AllBytes packets

-- From a buffer of bytes that has at least 44 of them, and for packets of bytes, the server accesses
-- nothing outside its buffer and prints a line for every packet, with what stands in the buffer at the
-- four ports' places when the packet has been put over what the packets before have left.
pub show_all-lines :
    (m : Mem) (hdrincl : ℕ) (packets : List (List ℕ))
    → 44 ≤ length m
    → IsBytes m
    → AllBytes packets
    → show_all m hdrincl packets ≡ some (lines m hdrincl packets)
unfolding show_all
show_all-lines m hdrincl [] h b all = refl
show_all-lines m hdrincl (packet ∷ packets) h b (first, all) =
    let (received, bytes) = receive-over m packet b first in
    let m' = over packet m in
    let long : 44 ≤ length m' = omega (arith, length-over packet m) in
    rw
      (
        received,
        show-line_of m' hdrincl long bytes,
        show_all-lines m' (flip hdrincl) packets long bytes all,
      )
      refl
