-- ===== src/Lzint/Tests.antt =====
-- Values made from bytes and from the text of a literal.
use geas.Prelude.{ℕ, ◌≡◌, refl, List, [], ◌∷◌, length, arith}
use geas.Prelude.Int.{pos}
use geas.Lzint.{
  Value, err, odd_hex_bytes, ok, bytes, byte_len, from_int, from_bytes, nat_bytes, fill_bytes,
  bit_len,
}
use geas.Prelude.Text.{with_0x, hex_bytes, text_of}
use geas.Lzint.Literal.{number, parse_number_literal}
use geas.Lzint.Literal.RoundTrip.{parse_number_literal-hex_bytes, parse_number_literal-digit}
use geas.Lzint.RoundTrip.{bytes-from_bytes, byte_len-bytes}

bytes-from_bytes_example : bytes (from_bytes (0 ∷ 0 ∷ 1 ∷ 255 ∷ [])) ≡ ok (0 ∷ 0 ∷ 1 ∷ 255 ∷ [])
bytes-from_bytes_example =
    bytes-from_bytes (0 ∷ 0 ∷ 1 ∷ 255 ∷ [])
      (ground arith, (ground arith, (ground arith, (ground arith, tt))))

abbrev two_bytes : List ℕ
two_bytes = 1 ∷ 2 ∷ []

byte_len-bytes_example : length two_bytes ≡ byte_len (from_int (pos 258))
unfolding bytes from_int nat_bytes fill_bytes byte_len bit_len
byte_len-bytes_example = byte_len-bytes (from_int (pos 258)) two_bytes refl

parse_number_literal-hex_bytes_example :
    (v : Value) × (parse_number_literal (with_0x (hex_bytes (0 ∷ 171 ∷ []))) ≡ number v)
    × (bytes v ≡ ok (0 ∷ 171 ∷ []))
parse_number_literal-hex_bytes_example =
    parse_number_literal-hex_bytes 0 (171 ∷ []) (ground arith, (ground arith, tt))

parse_number_literal-digit_example :
    (v : Value) × (parse_number_literal (with_0x (text_of (12 ∷ []))) ≡ number v)
    × (bytes v ≡ err odd_hex_bytes)
parse_number_literal-digit_example = parse_number_literal-digit 12 (ground arith)
