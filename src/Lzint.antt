-- ===== src/Lzint.antt =====
-- internal/lzint/value.go: integers that remember the leading zeros of the text or the bytes that
-- they were made from. Bytes are numbers below 256, most significant first; math/big's Bytes,
-- SetBytes, FillBytes and BitLen are written out over them. The flags are Booleans.
pub mod Bytes
pub mod RoundTrip
pub mod Literal
mod Tests
use geas.Prelude.{
  ℕ, zero, suc, ◌+◌, ◌-◌, ◌*◌, ◌/◌, ◌%◌, Bool, true, false, List, [], ◌∷◌, ◌++◌, ◌==◌, nat_eq,
  if◌then◌else◌, length, replicate,
}
use geas.Prelude.Int.{ℤ, pos, is_negative, magnitude}

pub record Value : Type 0 where
  pub int : ℤ
  pub lznib : ℕ
  pub was_hex : Bool
  pub hex_odd_length : Bool
  pub was_bytes : Bool

pub data BytesError : Type 0 where
  negative_bytes odd_hex_bytes : BytesError

pub data BytesResult : Type 0 where
  ok : List ℕ → BytesResult
  err : BytesError → BytesResult

byte_digits : ℕ → ℕ → List ℕ
byte_digits zero n = []
byte_digits (suc fuel) n =
    let front = byte_digits fuel (n / 256) in if n == 0 then [] else front ++ (n % 256) ∷ []

-- `x.Bytes()`: no leading zero. Each round takes a byte off, so n rounds are enough.
unfoldable pub nat_bytes : ℕ → List ℕ
unfolding byte_digits
nat_bytes n = byte_digits n n

-- `SetBytes`, with the number read so far.
unfoldable pub bytes_nat : ℕ → List ℕ → ℕ
bytes_nat acc [] = acc
bytes_nat acc (b ∷ bs) = bytes_nat (acc * 256 + b) bs

bit_digits : ℕ → ℕ → ℕ
bit_digits zero n = 0
bit_digits (suc fuel) n = let rest = bit_digits fuel (n / 2) in if n == 0 then 0 else suc rest

unfoldable pub bit_len : ℕ → ℕ
unfolding bit_digits
bit_len n = bit_digits n n

-- `FillBytes` on a fresh slice of the given length.
unfoldable pub fill_bytes : ℕ → ℕ → List ℕ
fill_bytes len n = replicate (len - length (nat_bytes n)) 0 ++ nat_bytes n

unfoldable pub from_int : ℤ → Value
from_int i = record {
  int = i;
  lznib = 0;
  was_hex = false;
  hex_odd_length = false;
  was_bytes = false;
}

unfoldable pub leading_zeros : List ℕ → ℕ
leading_zeros [] = 0
leading_zeros (b ∷ bs) = if b == 0 then suc (leading_zeros bs) else 0

unfoldable pub from_bytes : List ℕ → Value
from_bytes bs = record {
  int = pos (bytes_nat 0 bs);
  lznib = 2 * leading_zeros bs;
  was_hex = false;
  hex_odd_length = false;
  was_bytes = true;
}

unfoldable pub byte_len : Value → ℕ
byte_len v = v.lznib / 2 + (bit_len (magnitude v.int) + 7) / 8

unfoldable pub integer_bit_len : Value → ℕ
integer_bit_len v = bit_len (magnitude v.int)

unfoldable pub bytes : Value → BytesResult
bytes v =
    if is_negative v.int
    then err negative_bytes
    else (if v.hex_odd_length
        then err odd_hex_bytes
        else ok (fill_bytes (byte_len v) (magnitude v.int)))
