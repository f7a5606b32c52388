-- ===== src/Raw6/RawAll/Round.antt =====
-- One round of the loop of c/raw6/rawall.c.
use study_tips.Base.{ℕ, ◌+◌, ◌≤◌, ◌<◌, ◌≡◌, ap, ◌∙◌, arith, length, some, List}
use native.Mathlib.Nat.{zero-add}
use study_tips.Base.Word.{u16}
use study_tips.Header.Memory.{Mem, byte, IsBytes, store16, htons}
use study_tips.Header.Block.{Reads, slice-Reads}
use study_tips.Header.Checksums.Words.{Writes16, store16-Writes16, field16}
use study_tips.Os.Sockets.{call_descriptors}
use study_tips.Raw6.RawAll.{put_udp, put_round, req_len}

-- One round: the header in front of the UDP header stays, the length of the datagram is set, and the
-- block is the buffer's first bytes.
pub record IsRound (m : Mem) (content_len : ℕ) : Type 0 where
  pub out : Mem
  pub block : List ℕ
  pub returns : put_round m content_len ≡ some (out, block)
  pub size : length out ≡ 4096
  pub bytes : IsBytes out
  pub whole : length block ≡ req_len content_len
  pub same_header : (i : ℕ) → i < 40 → byte out i ≡ byte m i
  pub copied : (i : ℕ) → i < req_len content_len → byte block i ≡ byte out i
  pub source_port : field16 out 40 ≡ 12760
  pub destination_port : field16 out 42 ≡ 22760
  pub length_field : field16 out 44 ≡ 8 + content_len
  pub check_sum : field16 out 46 ≡ 0

pub put_round-IsRound :
    (m : Mem) (content_len : ℕ)
    → IsBytes m
    → length m ≡ 4096
    → content_len ≤ 4048
    → IsRound m content_len
unfolding put_round put_udp
put_round-IsRound m content_len bytes size small = record {
  out = w4.out;
  block = read.block;
  returns = rw (w1.returns, w2.returns, w3.returns, w4.returns, read.returns);
  size = omega (arith, w4.same_length, w3.same_length, w2.same_length, w1.same_length);
  bytes = w4.bytes;
  whole = read.whole;
  same_header = λ i h. ground (arith, w4.others i, w3.others i, w2.others i, w1.others i);
  copied = λ i h. read.at i h ∙ ap (byte w4.out) (zero-add i);
  source_port = ground (
    arith,
    w4.others 40,
    w4.others 41,
    w3.others 40,
    w3.others 41,
    w2.others 40,
    w2.others 41,
    w1.field,
  );
  destination_port =
      ground (arith, w4.others 42, w4.others 43, w3.others 42, w3.others 43, w2.field);
  length_field = ground (arith, w4.others 44, w4.others 45, w3.field);
  check_sum = w4.field;
}
  where
    w1 : Writes16 m 40 12760 (store16 m 40 (htons 12760))
    w1 = store16-Writes16 m 40 12760 bytes (omega arith) (omega arith)

    w2 : Writes16 w1.out 42 22760 (store16 w1.out 42 (htons 22760))
    w2 = store16-Writes16 w1.out 42 22760 w1.bytes (omega (arith, w1.same_length)) (omega arith)

    w3 :
        Writes16 w2.out 44
          (u16 (8 + content_len))
          (store16 w2.out 44 (htons (u16 (8 + content_len))))
    w3 =
        store16-Writes16 w2.out 44 (u16 (8 + content_len)) w2.bytes
          (omega (arith, w2.same_length, w1.same_length)) (omega arith)

    w4 : Writes16 w3.out 46 0 (store16 w3.out 46 (htons 0))
    w4 =
        store16-Writes16 w3.out 46 0 w3.bytes
          (omega (arith, w3.same_length, w2.same_length, w1.same_length)) (omega arith)

    read : Reads w4.out 0 (req_len content_len)
    read =
        slice-Reads (req_len content_len) w4.out 0
          (omega (arith, w4.same_length, w3.same_length, w2.same_length, w1.same_length))
