-- ===== src/Disasm/Invalid.antt =====
-- How an undefined opcode is printed, and what the assembler reads there.
use Prim.Native.String.{◌++◌ as append}
use geas.Prelude.{ℕ, ◌≤◌, ◌<◌, ◌≡◌, refl, [], ◌∷◌, String}
use geas.Prelude.Text.{with_0x, hex_number, hex_number-digit, hex_number-byte}
use geas.Lzint.{Value, ok, err, odd_hex_bytes, bytes}
use geas.Lzint.Literal.{number, parse_number_literal}
use geas.Lzint.Literal.RoundTrip.{parse_number_literal-hex_bytes, parse_number_literal-digit}
use geas.Disasm.{print_invalid}

-- An undefined opcode from 0x10 on is printed as a #bytes statement whose literal is this byte.
pub print_invalid_byte :
    (b : ℕ)
    → b < 256
    → 16 ≤ b
    → (literal : String) × (v : Value) × (print_invalid b ≡ append "#bytes " (append literal "\n"))
      × (parse_number_literal literal ≡ number v)
      × (bytes v ≡ ok (b ∷ []))
unfolding print_invalid
print_invalid_byte b h le =
    let (v, reads, back) = parse_number_literal-hex_bytes b [] (h, tt) in
    (with_0x (hex_number b), v, refl, rw (hex_number-byte b h le) reads, back)

-- An undefined opcode below 0x10 is printed as a #bytes statement whose literal has one digit, and
-- the assembler reports its odd length.
pub print_invalid_digit :
    (b : ℕ)
    → b < 16
    → (literal : String) × (v : Value) × (print_invalid b ≡ append "#bytes " (append literal "\n"))
      × (parse_number_literal literal ≡ number v)
      × (bytes v ≡ err odd_hex_bytes)
unfolding print_invalid
print_invalid_digit b h =
    let (v, reads, back) = parse_number_literal-digit b h in
    (with_0x (hex_number b), v, refl, rw (hex_number-digit b h) reads, back)
