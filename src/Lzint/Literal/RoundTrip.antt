-- ===== src/Lzint/Literal/RoundTrip.antt =====
-- The hexadecimal text of bytes, as a literal and from String.
use geas.Prelude.{
  ℕ, zero, suc, ◌+◌, ◌*◌, ◌/◌, ◌%◌, ◌<◌, ◌≡◌, refl, ap, ◌∙◌, true, false, some, List, [], ◌∷◌, ◌++◌,
  String, All, arith, ◌==◌, nat_eq, replicate, if◌then◌else◌,
}
use geas.Prelude.Int.{pos}
use geas.Prelude.Text.{
  hex_char, text_of, nibbles, hex_bytes, with_0x, digit_value-hex_char, hex_char-nonzero,
  hex_char-unsigned,
}
use geas.Lzint.{
  Value, ok, err, odd_hex_bytes, bytes, byte_len, from_bytes, leading_zeros, nat_bytes, bytes_nat,
}
use geas.Lzint.Bytes.{IsByte}
use geas.Lzint.RoundTrip.{bytes-from_bytes, zeros_and_digits}
use geas.Lzint.Literal.{
  number, digits_number, set_string, is_odd_length, zero_digits, hex_literal, positive,
  parse_number_literal, string, zeros_before,
}

digits_number-digit :
    (acc n : ℕ) (s : String)
    → n < 16
    → digits_number 16 acc (String.◌∷◌ (hex_char n) s) ≡ digits_number 16 (acc * 16 + n) s
unfolding digits_number
digits_number-digit acc n s h = ground (arith, digit_value-hex_char n h)

digits_number-nibbles :
    (acc : ℕ) (bs : List ℕ)
    → All IsByte bs
    → digits_number 16 acc (text_of (nibbles bs)) ≡ some (bytes_nat acc bs)
unfolding text_of bytes_nat
digits_number-nibbles acc [] h = unfold digits_number in refl
digits_number-nibbles acc (b ∷ bs) h =
    let join : (acc * 16 + b / 16) * 16 + b % 16 ≡ acc * 256 + b = omega arith in
    digits_number-digit acc (b / 16) _ (omega arith)
    ∙ digits_number-digit (acc * 16 + b / 16) (b % 16) _ (omega arith)
    ∙ ap (λ n. digits_number 16 n (text_of (nibbles bs))) join
    ∙ digits_number-nibbles (acc * 256 + b) bs h.1

set_string-nibbles :
    (b : ℕ) (bs : List ℕ)
    → All IsByte (b ∷ bs)
    → set_string 16 (text_of (nibbles (b ∷ bs))) ≡ some (pos (bytes_nat 0 (b ∷ bs)))
unfolding set_string text_of
set_string-nibbles b bs h =
    let (minus, plus) = hex_char-unsigned (b / 16) (omega arith) in
    rw (minus, plus) (ap positive (unfold text_of in digits_number-nibbles 0 (b ∷ bs) h))

is_odd_length-nibbles : (bs : List ℕ) → is_odd_length (text_of (nibbles bs)) ≡ false
unfolding is_odd_length text_of
is_odd_length-nibbles [] = refl
is_odd_length-nibbles (b ∷ bs) = ground (arith, is_odd_length-nibbles bs)

zero_digits-digit :
    (n : ℕ) (s : String)
    → n < 16
    → zero_digits (String.◌∷◌ (hex_char n) s) ≡ (if n == 0 then suc (zero_digits s) else 0)
unfolding zero_digits
zero_digits-digit zero s h = unfold hex_char in refl
zero_digits-digit (suc n) s h = ground (arith, hex_char-nonzero n h)

zero_digits-nibbles :
    (bs : List ℕ) → All IsByte bs → zero_digits (text_of (nibbles bs)) / 2 ≡ leading_zeros bs
unfolding text_of leading_zeros
zero_digits-nibbles [] h = unfold zero_digits in refl
zero_digits-nibbles (b ∷ bs) h =
    let rest = text_of (nibbles bs) in
    let high = zero_digits-digit (b / 16) (String.◌∷◌ (hex_char (b % 16)) rest) (omega arith) in
    let low = zero_digits-digit (b % 16) rest (omega arith) in
    ground (arith, high, low, zero_digits-nibbles bs h.1)

-- The value of a literal that spells bytes out.
abbrev spelled : List ℕ → Value
spelled bs = record {
  int = pos (bytes_nat 0 bs);
  lznib = zero_digits (text_of (nibbles bs));
  was_hex = true;
  hex_odd_length = is_odd_length (text_of (nibbles bs));
  was_bytes = false;
}

bytes-spelled : (bs : List ℕ) → All IsByte bs → bytes (spelled bs) ≡ bytes (from_bytes bs)
unfolding bytes from_bytes byte_len
bytes-spelled bs h =
    let even = is_odd_length-nibbles bs in
    let zeros = zero_digits-nibbles bs h in
    let zeros' : 2 * leading_zeros bs / 2 ≡ leading_zeros bs = omega arith in
    rw (even, zeros, zeros') refl

-- The hexadecimal text of a byte slice is a literal, and Bytes gives the slice back, leading zeros
-- included, unless it is empty.
pub parse_number_literal-hex_bytes :
    (b : ℕ) (bs : List ℕ)
    → All IsByte (b ∷ bs)
    → (v : Value) × (parse_number_literal (with_0x (hex_bytes (b ∷ bs))) ≡ number v)
      × (bytes v ≡ ok (b ∷ bs))
unfolding parse_number_literal hex_literal with_0x hex_bytes
parse_number_literal-hex_bytes b bs h = (
  spelled (b ∷ bs),
  rw (set_string-nibbles b bs h) refl,
  bytes-spelled (b ∷ bs) h ∙ bytes-from_bytes (b ∷ bs) h,
)

-- The number of the literal is that of the bytes, big-endian.
pub parse_number_literal_int :
    (b : ℕ) (bs : List ℕ)
    → All IsByte (b ∷ bs)
    → (v : Value) × (parse_number_literal (with_0x (hex_bytes (b ∷ bs))) ≡ number v)
      × (v.int ≡ pos (bytes_nat 0 (b ∷ bs)))
unfolding parse_number_literal hex_literal with_0x hex_bytes
parse_number_literal_int b bs h = (spelled (b ∷ bs), rw (set_string-nibbles b bs h) refl, refl)

zeros_before-nibbles :
    (k : ℕ) (bs : List ℕ)
    → zeros_before (2 * k) (text_of (nibbles bs)) ≡ text_of (nibbles (replicate k 0 ++ bs))
unfolding zeros_before text_of
zeros_before-nibbles zero bs = refl
zeros_before-nibbles (suc k) bs =
    let twice : 2 * suc k ≡ suc (suc (2 * k)) = omega arith in
    rw (twice, zeros_before-nibbles k bs) (unfold hex_char in refl)

-- String writes a value that FromBytes made as the hexadecimal text of the bytes.
pub string-from_bytes :
    (bs : List ℕ) → All IsByte bs → string (from_bytes bs) ≡ with_0x (hex_bytes bs)
unfolding string from_bytes hex_bytes
string-from_bytes bs h = ap with_0x (
    zeros_before-nibbles (leading_zeros bs) (nat_bytes (bytes_nat 0 bs))
    ∙ ap (λ l. text_of (nibbles l)) (zeros_and_digits bs h))

-- A literal of one digit has no bytes: its digits are not pairs.
pub parse_number_literal-digit :
    (n : ℕ)
    → n < 16
    → (v : Value) × (parse_number_literal (with_0x (text_of (n ∷ []))) ≡ number v)
      × (bytes v ≡ err odd_hex_bytes)
unfolding parse_number_literal hex_literal with_0x set_string text_of bytes is_odd_length
parse_number_literal-digit n h =
    let (minus, plus) = hex_char-unsigned n h in
    let digit = digits_number-digit 0 n String.[] h in
    let v : Value = record {
      int = pos (0 * 16 + n);
      lznib = zero_digits (text_of (n ∷ []));
      was_hex = true;
      hex_odd_length = is_odd_length (text_of (n ∷ []));
      was_bytes = false;
    } in
    (v, rw (minus, plus, digit) (unfold digits_number in refl), refl)
