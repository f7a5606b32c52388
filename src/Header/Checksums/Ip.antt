-- ===== src/Header/Checksums/Ip.antt =====
-- `ipv4_header_checksum` of c/common/header.h: a receiver accepts the header that it completes.
use study_tips.Base.{ℕ, ◌+◌, ◌-◌, ◌*◌, ◌%◌, ◌^◌, ◌≤◌, ◌<◌, ◌≡◌, ◌≢◌, arith, length, Option, some}
use study_tips.Base.Bits.{bit_and_low}
use study_tips.Base.Word.{u8, u16}
use study_tips.Header.Memory.{Mem, byte, IsBytes, load, load-byte, htons, store16}
use study_tips.Header.Sum.{checksum}
use study_tips.Header.Sum.Laws.{ones, words, words-le, checksum_lem}
use study_tips.Header.Checksums.{ipv4_header_checksum, complement}
use study_tips.Header.Checksums.Words.{words_first, words-field16, Writes16, store16-Writes16}
use study_tips.Header.Checksums.Received.{fill_up}

-- The length that the first byte of the header states: its low four bits, in words of four bytes.
abbrev pub stated_len : Mem → ℕ → ℕ
stated_len m ip = byte m ip % 16 * 4

-- A header of at least 20 bytes inside the object, with a version in its first byte.
pub record IsHeader (m : Mem) (ip : ℕ) : Type 0 where
  pub bytes : IsBytes m
  pub whole : 20 ≤ stated_len m ip
  pub fits : ip + stated_len m ip ≤ length m
  pub version : 16 ≤ byte m ip

pub record IsCompleted (m : Mem) (ip : ℕ) (call : Option Mem) : Type 0 where
  pub out : Mem
  pub returns : call ≡ some out
  pub same_length : length out ≡ length m
  pub accepted : ones (words out ip (stated_len m ip)) ≡ 65535
  pub others : (j : ℕ) → j ≢ ip + 10 → j ≢ ip + 11 → byte out j ≡ byte m j

module _ (m : Mem) (ip : ℕ) (header : IsHeader m ip) where
  open header use {bytes, whole, fits, version}

  cleared : Writes16 m (ip + 10) 0 (store16 m (ip + 10) (htons 0))
  cleared = store16-Writes16 m (ip + 10) 0 bytes (omega arith) (omega arith)

  total : ℕ
  total = words cleared.out ip (stated_len m ip)

  total_pos : 0 < total
  unfolding total
  total_pos = omega (
    arith,
    words_first cleared.out ip (stated_len m ip) (omega arith),
    cleared.others ip (λ e. omega arith) (λ e. omega arith),
  )

  sum_lem : checksum cleared.out 0 (some ip) (stated_len m ip) ≡ some (ones total)
  unfolding total
  sum_lem =
      let plus : 0 + words cleared.out ip (stated_len m ip)
          ≡ words cleared.out ip (stated_len m ip) =
        omega arith in
      rw (← plus) (
        checksum_lem cleared.out cleared.bytes 0 ip (stated_len m ip)
          (omega (arith, cleared.same_length)) (omega arith)
          (omega (arith, words-le cleared.out cleared.bytes ip (stated_len m ip))))

  completed :
      Writes16 cleared.out
        (ip + 10)
        (u16 (2 ^ 32 - 1 - ones total))
        (store16 cleared.out (ip + 10) (complement (ones total)))
  completed =
      store16-Writes16 cleared.out (ip + 10) (u16 (2 ^ 32 - 1 - ones total)) cleared.bytes
        (omega (arith, cleared.same_length)) (omega arith)

  returns_lem : ipv4_header_checksum m ip ≡ some completed.out
  unfolding ipv4_header_checksum
  returns_lem =
      let read : load m (ip + 0) ≡ some (byte m ip) =
        let here : ip + 0 ≡ ip = omega arith in rw here (load-byte m ip (omega arith)) in
      let head_len : u8 (byte m ip % 2 ^ 4 * 2 ^ 2) ≡ stated_len m ip = omega arith in
      rw (read, bit_and_low 4 (byte m ip), cleared.returns, head_len, sum_lem, completed.returns)

  accepted_lem : ones (words completed.out ip (stated_len m ip)) ≡ 65535
  unfolding total
  accepted_lem =
      let grown : words completed.out ip (stated_len m ip) ≡ total + u16 (2 ^ 32 - 1 - ones total) =
        omega (
          arith,
          words-field16 cleared.out completed.out 5 ip (ip + 10) (stated_len m ip) (omega arith)
              (omega arith) completed.others,
          cleared.field,
          completed.field,
        ) in
      rw grown (fill_up total total_pos)

  -- For a header inside the object whose first byte states a version and at least five words,
  -- `ipv4_header_checksum` returns; a receiver's sum over the header is then 0xFFFF, and no byte but
  -- the two of the checksum has changed.
  pub ipv4_header_checksum-IsCompleted : IsCompleted m ip (ipv4_header_checksum m ip)
  ipv4_header_checksum-IsCompleted = record {
    out = completed.out;
    returns = returns_lem;
    same_length = omega (arith, cleared.same_length, completed.same_length);
    accepted = accepted_lem;
    others = λ j h1 h2. ground (arith, cleared.others j, completed.others j);
  }
