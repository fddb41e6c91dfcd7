-- ===== src/Lzint/Literal.antt =====
-- internal/lzint/value.go: ParseNumberLiteral and String. Lengths count characters where the source
-- counts bytes: these differ only on texts that SetString refuses. SetString of math/big is written
-- out for the bases 10 and 16: an optional sign, and then digits.
pub mod RoundTrip
use Prim.Native.Char.{Char, code}
use geas.Prelude.{
  ℕ, zero, suc, ◌+◌, ◌*◌, ◌%◌, Bool, true, false, not, ◌||◌, ◌&&◌, Option, none, some, List, [],
  ◌∷◌, String, ltb, ◌==◌, nat_eq, if◌then◌else◌,
}
use geas.Prelude.Int.{ℤ, pos, negsuc, is_negative, magnitude}
use geas.Prelude.Text.{digit_value, hex_bytes, hex_number, with_0x}
use geas.Evm.Effect.{decimal}
use geas.Lzint.{Value, from_int, nat_bytes}

pub data LiteralError : Type 0 where
  empty_text invalid_hex leading_zero invalid_number : LiteralError

pub data Literal : Type 0 where
  number : Value → Literal
  rejected : LiteralError → Literal

-- `none` stands for a text that has something else than digits of the base.
unfoldable pub digits_number : ℕ → ℕ → String → Option ℕ
digits_number base acc String.[] = some acc
digits_number base acc (String.◌∷◌ c s) = elim (digit_value c) [
  | none ↦ none
  | some d ↦ if ltb d base then digits_number base (acc * base + d) s else none
]

unfoldable pub unsigned_number : ℕ → String → Option ℕ
unfolding digits_number
unsigned_number base String.[] = none
unsigned_number base (String.◌∷◌ c s) = digits_number base 0 (String.◌∷◌ c s)

abbrev positive : Option ℕ → Option ℤ
positive none = none
positive (some n) = some (pos n)

abbrev negative : Option ℕ → Option ℤ
negative none = none
negative (some zero) = some (pos 0)
negative (some (suc n)) = some (negsuc n)

-- `SetString(text, base)`
unfoldable pub set_string : ℕ → String → Option ℤ
unfolding unsigned_number
set_string base String.[] = none
set_string base (String.◌∷◌ c s) =
    if code c == b'-'
    then negative (unsigned_number base s)
    else (if code c == b'+'
        then positive (unsigned_number base s)
        else positive (digits_number base 0 (String.◌∷◌ c s)))

unfoldable pub is_odd_length : String → Bool
is_odd_length String.[] = false
is_odd_length (String.◌∷◌ c s) = not (is_odd_length s)

-- The loop over the leading zeros.
unfoldable pub zero_digits : String → ℕ
zero_digits String.[] = 0
zero_digits (String.◌∷◌ c s) = if code c == b'0' then suc (zero_digits s) else 0

hex_result : String → Option ℤ → Literal
hex_result hex none = rejected invalid_hex
hex_result hex (some i) = number (record {
  int = i;
  lznib = zero_digits hex;
  was_hex = true;
  hex_odd_length = is_odd_length hex;
  was_bytes = false;
})

unfoldable pub hex_literal : String → Literal
unfolding hex_result
hex_literal hex = hex_result hex (set_string 16 hex)

decimal_result : Option ℤ → Literal
decimal_result none = rejected invalid_number
decimal_result (some i) = number (from_int i)

-- A text of two characters or more, by its first two and the rest.
literal_of : Char → Char → String → Literal
unfolding decimal_result
literal_of c d rest =
    if (code c == b'0') && (code d == b'x' || code d == b'X')
    then hex_literal rest
    else (if code c == b'0'
        then rejected leading_zero
        else decimal_result (set_string 10 (String.◌∷◌ c (String.◌∷◌ d rest))))

unfoldable pub parse_number_literal : String → Literal
unfolding literal_of decimal_result
parse_number_literal String.[] = rejected empty_text
parse_number_literal (String.◌∷◌ c String.[]) =
    decimal_result (set_string 10 (String.◌∷◌ c String.[]))
parse_number_literal (String.◌∷◌ c (String.◌∷◌ d rest)) = literal_of c d rest

zeros_before : ℕ → String → String
zeros_before zero s = s
zeros_before (suc n) s = String.◌∷◌ "0" (zeros_before n s)

signed_decimal : ℤ → String
signed_decimal (pos n) = decimal n
signed_decimal (negsuc n) = String.◌∷◌ "-" (decimal (suc n))

positive_hex : ℕ → String
positive_hex zero = String.[]
positive_hex (suc n) = hex_number (suc n)

-- The text of String, for a value that is not nil.
unfoldable pub string : Value → String
unfolding zeros_before signed_decimal positive_hex
string v =
    if v.was_hex || v.was_bytes
    then with_0x (
        zeros_before v.lznib (
          if v.was_bytes
          then hex_bytes (nat_bytes (magnitude v.int))
          else (if is_negative v.int then String.[] else positive_hex (magnitude v.int))))
    else signed_decimal v.int
