-- ===== src/Prelude/Text.antt =====
-- The hexadecimal digits that package fmt writes and math/big reads.
use Prim.Native.Nat.{ℕ, zero, suc, ◌+◌, ◌-◌, ◌/◌, ◌%◌, ◌<◌, ◌≤◌}
use Prim.Native.Char.{Char, code}
use Prim.Native.String.{String}
use mathlib.Core.Path.{◌≡◌, refl, ap}
use mathlib.Core.Bool.{Bool, true, false, not, ◌&&◌}
use mathlib.Core.Option.{Option, none, some}
use mathlib.Core.List.{List, [], ◌∷◌, ◌++◌}
use native.Mathlib.Omega.{arith}
use geas.Prelude.Tests.{ltb, leb, if◌then◌else◌, ◌==◌, nat_eq, nat_beq_iff}
use geas.Prelude.Tables.{all_below, all_below_sound}

-- The digits 0 to f.
unfoldable pub hex_char : ℕ → Char
hex_char n =
    if n == 0
    then "0"
    else if n == 1
    then "1"
    else if n == 2
    then "2"
    else if n == 3
    then "3"
    else if n == 4
    then "4"
    else if n == 5
    then "5"
    else if n == 6
    then "6"
    else if n == 7
    then "7"
    else if n == 8
    then "8"
    else if n == 9
    then "9"
    else if n == 10
    then "a"
    else if n == 11
    then "b"
    else if n == 12
    then "c"
    else if n == 13
    then "d"
    else if n == 14
    then "e"
    else "f"

-- The value of a digit in any base.
unfoldable pub digit_value : Char → Option ℕ
digit_value c =
    if leb b'0' (code c) && leb (code c) b'9'
    then some (code c - b'0')
    else (if leb b'a' (code c) && leb (code c) b'z'
        then some (code c - b'a' + 10)
        else (if leb b'A' (code c) && leb (code c) b'Z' then some (code c - b'A' + 10) else none))

unfoldable pub text_of : List ℕ → String
text_of [] = String.[]
text_of (n ∷ ns) = String.◌∷◌ (hex_char n) (text_of ns)

-- The two digits of each byte.
abbrev pub nibbles : List ℕ → List ℕ
nibbles [] = []
nibbles (b ∷ bs) = (b / 16) ∷ (b % 16) ∷ nibbles bs

-- `%x` of a slice of bytes.
unfoldable pub hex_bytes : List ℕ → String
unfolding text_of
hex_bytes bs = text_of (nibbles bs)

nibbles_of : ℕ → ℕ → List ℕ
nibbles_of zero n = []
nibbles_of (suc fuel) n =
    let front = nibbles_of fuel (n / 16) in if ltb n 16 then n ∷ [] else front ++ (n % 16) ∷ []

-- `%x` of a number, which has n + 1 digits at most.
unfoldable pub hex_number : ℕ → String
unfolding nibbles_of text_of
hex_number n = text_of (nibbles_of (suc n) n)

unfoldable pub with_0x : String → String
with_0x s = String.◌∷◌ "0" (String.◌∷◌ "x" s)

is_value : Option ℕ → ℕ → Bool
is_value none n = false
is_value (some d) n = d == n

digits_table : all_below 16 (λ n. is_value (digit_value (hex_char n)) n) ≡ true
unfolding all_below digit_value hex_char is_value
digits_table = refl

is_value_sound : (o : Option ℕ) (n : ℕ) → is_value o n ≡ true → o ≡ some n
unfolding is_value
is_value_sound none n h = cc
is_value_sound (some d) n h = ground (arith, nat_beq_iff d n)

pub digit_value-hex_char : (n : ℕ) → n < 16 → digit_value (hex_char n) ≡ some n
digit_value-hex_char n h = is_value_sound _ n (all_below_sound 16 _ n digits_table h)

nonzero_table : all_below 15 (λ n. not (code (hex_char (suc n)) == b'0')) ≡ true
unfolding all_below hex_char
nonzero_table = refl

-- Only the digit of 0 is the character 0.
pub hex_char-nonzero : (n : ℕ) → suc n < 16 → (code (hex_char (suc n)) == b'0') ≡ false
hex_char-nonzero n h = ground (
  arith,
  all_below_sound 15 (λ n. not (code (hex_char (suc n)) == b'0')) n nonzero_table (omega arith),
)

unsigned_table :
    all_below 16 (λ n. not (code (hex_char n) == b'-') && not (code (hex_char n) == b'+')) ≡ true
unfolding all_below hex_char
unsigned_table = refl

-- No digit is a sign.
pub hex_char-unsigned :
    (n : ℕ) → n < 16 → ((code (hex_char n) == b'-') ≡ false) × ((code (hex_char n) == b'+') ≡ false)
hex_char-unsigned n h =
    let row =
      all_below_sound 16 (λ m. not (code (hex_char m) == b'-') && not (code (hex_char m) == b'+')) n
        unsigned_table h in
    (ground arith, ground arith)

nibbles_of-digit : (f d : ℕ) → d < 16 → nibbles_of (suc f) d ≡ d ∷ []
unfolding nibbles_of
nibbles_of-digit f d h = ground arith

pub hex_number-digit : (d : ℕ) → d < 16 → hex_number d ≡ text_of (d ∷ [])
unfolding hex_number
hex_number-digit d h = ap text_of (nibbles_of-digit d d h)

nibbles_of-byte : (f b : ℕ) → b < 256 → 16 ≤ b → nibbles_of (suc (suc f)) b ≡ b / 16 ∷ b % 16 ∷ []
unfolding nibbles_of
nibbles_of-byte f b h le = ground (arith, nibbles_of-digit f (b / 16))

-- A number of two digits is printed like the byte.
pub hex_number-byte : (b : ℕ) → b < 256 → 16 ≤ b → hex_number b ≡ hex_bytes (b ∷ [])
unfolding hex_number hex_bytes
hex_number-byte zero h le = absurd (omega arith)
hex_number-byte (suc b) h le = ap text_of (nibbles_of-byte b (suc b) h le)
