-- ===== src/Cap/Usage/Laws.antt =====
-- The indentation in the usage text of c/cap/main.c.
use study_tips.Base.{
  ℕ, zero, suc, ◌+◌, ◌-◌, ◌*◌, ◌/◌, ◌%◌, ◌≤◌, ◌<◌, ◌≡◌, refl, ap, ◌∙◌, arith, true, false, some,
  List, [], ◌∷◌, length, replicate, take, length-take, length-replicate, dec_lt,
}
use Prim.Native.Nat.{min}
use study_tips.Base.Decimal.{decimal}
use study_tips.Cap.Usage.{
  is_digit, read_number, padded, by_precision, by_format, continue_spaces, usage_header,
  option_indent_format, option_indent,
}

take_whole {ℓ} : {A : Type ℓ} (n : ℕ) (xs : List A) → length xs ≤ n → take n xs ≡ xs
take_whole zero [] h = refl
take_whole zero (x ∷ xs) h = absurd (omega arith)
take_whole (suc n) [] h = refl
take_whole (suc n) (x ∷ xs) h = ap (λ l. x ∷ l) (take_whole n xs (omega arith))

take-replicate {ℓ} : {A : Type ℓ} (n m : ℕ) (a : A) → n ≤ m → take n (replicate m a) ≡ replicate n a
take-replicate zero m a h = refl
take-replicate (suc n) zero a h = absurd (omega arith)
take-replicate (suc n) (suc m) a h = ap (λ l. a ∷ l) (take-replicate n m a (omega arith))

-- The two cases of printing.
decimal_small : (fuel n : ℕ) (ds : List ℕ) → n < 10 → decimal (suc fuel) n ds ≡ (b'0' + n) ∷ ds
unfolding decimal
decimal_small fuel n ds h = ground arith

decimal_big :
    (fuel n : ℕ) (ds : List ℕ)
    → 10 ≤ n
    → decimal (suc fuel) n ds ≡ decimal fuel (n / 10) ((b'0' + n % 10) ∷ ds)
unfolding decimal
decimal_big fuel n ds h = ground arith

read_number-digit :
    (a d n : ℕ) (ds : List ℕ)
    → d < 10
    → a * 10 + d ≡ n
    → read_number a ((b'0' + d) ∷ ds) ≡ read_number n ds
unfolding read_number
read_number-digit a d n ds h s =
    let e : is_digit (b'0' + d) ≡ true = ground arith in
    rw e (ap (λ k. read_number k ds) (omega arith))

read_number-other :
    (n c : ℕ) (cs : List ℕ) → is_digit c ≡ false → read_number n (c ∷ cs) ≡ (n, c ∷ cs)
unfolding read_number
read_number-other n c cs h = rw h refl

-- Reading takes in what printing has put in front.
read_number-decimal :
    (fuel n : ℕ) (ds : List ℕ) → n ≤ fuel → read_number 0 (decimal fuel n ds) ≡ read_number n ds
unfolding decimal
read_number-decimal zero n ds h = read_number-digit 0 (n % 10) n ds (omega arith) (omega arith)
read_number-decimal (suc fuel) n ds h = elim (dec_lt n 10) [
  | yes small ↦ rw (decimal_small fuel n ds small) (read_number-digit 0 n n ds small (omega arith))
  | no big ↦
      let ih = read_number-decimal fuel (n / 10) ((b'0' + n % 10) ∷ ds) (omega arith) in
      rw (decimal_big fuel n ds (omega arith), ih)
        (read_number-digit (n / 10) (n % 10) n ds (omega arith) (omega arith))
]

length-decimal : (fuel n : ℕ) (ds : List ℕ) → 9 * length (decimal fuel n ds) ≤ n + 9 + 9 * length ds
unfolding decimal
length-decimal zero n ds = omega arith
length-decimal (suc fuel) n ds = elim (dec_lt n 10) [
  | yes small ↦ rw (decimal_small fuel n ds small) (omega arith)
  | no big ↦
      let ih = length-decimal fuel (n / 10) ((b'0' + n % 10) ∷ ds) in
      rw (decimal_big fuel n ds (omega arith)) (omega (arith, ih))
]

-- The format with a number as its width and its precision cuts the spaces at that number.
module _ (n : ℕ) where
  precision : List ℕ
  precision = decimal n n (b's' ∷ [])

  width : List ℕ
  unfolding precision
  width = decimal n n (b'.' ∷ precision)

module _ (n : ℕ) (small : n ≤ 127) where
  option_indent_format_lem : option_indent_format n ≡ b'%' ∷ width n
  unfolding option_indent_format width precision
  option_indent_format_lem =
      take_whole 127 (b'%' ∷ width n)
        (omega (arith, length-decimal n n (b's' ∷ []), length-decimal n n (b'.' ∷ precision n)))

  read_width : read_number 0 (width n) ≡ (n, b'.' ∷ precision n)
  unfolding width
  read_width =
      read_number-decimal n n (b'.' ∷ precision n) (omega arith)
      ∙ read_number-other n b'.' (precision n) refl

  read_precision : read_number 0 (precision n) ≡ (n, b's' ∷ [])
  unfolding precision
  read_precision =
      read_number-decimal n n (b's' ∷ []) (omega arith) ∙ read_number-other n b's' [] refl

  padded_lem : padded n n continue_spaces ≡ replicate n b' '
  padded_lem =
      let cut : take n continue_spaces ≡ replicate n 32 = take-replicate {A = ℕ} n 127 32 small in
      let no_more : n - length (replicate {A = ℕ} n 32) ≡ 0 =
        omega (arith, length-replicate {A = ℕ} n 32) in
      rw (cut, no_more) refl

  by_format_lem : by_format (option_indent_format n) continue_spaces ≡ some (replicate n b' ')
  unfolding by_format by_precision
  by_format_lem = rw (option_indent_format_lem, read_width, read_precision, padded_lem) refl

length-usage_header : (argv0 : List ℕ) → length (usage_header argv0) ≡ min 127 (length argv0 + 7)
unfolding usage_header
length-usage_header argv0 = omega (arith, length-take 120 argv0)

-- The format that is written with a number as its width and precision is read back as that number, so
-- that the indentation is as many spaces as the usage header has characters: those of `Usage: ` and the
-- program's name, or 127 where these are more.
pub option_indent_lem :
    (argv0 : List ℕ)
    → (option_indent argv0 ≡ some (replicate (length (usage_header argv0)) b' '))
      × (length (usage_header argv0) ≡ min 127 (length argv0 + 7))
unfolding option_indent
option_indent_lem argv0 =
    let n = length (usage_header argv0) in
    let small : n ≤ 127 = omega (arith, length-usage_header argv0) in
    (
      rw (by_format_lem n small) (
          ap (λ l. some l)
            (take_whole 127 (replicate n b' ') (omega (arith, length-replicate {A = ℕ} n 32)))),
      length-usage_header argv0,
    )
