-- ===== src/Evm/Immediate.antt =====
-- internal/evm/ops.go: immediate bytes of DUPN, SWAPN and EXCHANGE (EIP-8024), as the functions
-- encode, decode and validate them. A byte is a number below 256; the arguments are numbers, since
-- the parser takes them from literals of at most 8 bits.
pub mod RoundTrip
pub mod Validation
use geas.Prelude.{
  ℕ, ◌+◌, ◌-◌, ◌*◌, ◌/◌, ◌%◌, Bool, false, ◌||◌, ◌&&◌, List, [], ◌∷◌, ltb, leb, ◌==◌, string_eq,
  if◌then◌else◌,
}
use geas.Evm.Op.{Op}

pub data EncodeError : Type 0 where
  depth_range first_range second_range sum_range one_immediate two_immediates : EncodeError
  no_immediates : EncodeError

pub data Encoded : Type 0 where
  byte : ℕ → Encoded
  refused : EncodeError → Encoded

-- The functions below are met with the name of the instruction only: `op.Name` in a switch.
pub data Kind : Type 0 where
  dupn swapn exchange other : Kind

unfoldable pub kind : Op → Kind
kind o =
    if o.name == "EXCHANGE"
    then exchange
    else (if o.name == "SWAPN" then swapn else (if o.name == "DUPN" then dupn else other))

unfoldable pub decode_immediate_single : ℕ → ℕ
decode_immediate_single x = if leb x 90 then x + 17 else x - 20

pair_of : ℕ → ℕ → ℕ × ℕ
pair_of q r = if ltb q r then (q + 1, r + 1) else (r + 1, 29 - q)

unfoldable pub decode_immediate_pair : ℕ → ℕ × ℕ
unfolding pair_of
decode_immediate_pair x = let k : ℕ = if leb x 79 then x else x - 48 in pair_of (k / 16) (k % 16)

unfoldable pub encode_immediate_single : ℕ → Encoded
encode_immediate_single depth =
    if leb 17 depth && leb depth 107
    then byte (depth - 17)
    else (if leb 108 depth && leb depth 235 then byte (depth + 20) else refused depth_range)

skip_gap : ℕ → ℕ
skip_gap k = if ltb 79 k then k + 48 else k

unfoldable pub encode_immediate_pair : ℕ → ℕ → Encoded
unfolding skip_gap
encode_immediate_pair n m =
    if ltb n 1 || ltb 13 n
    then refused first_range
    else (if leb m n || ltb 29 m
        then refused second_range
        else (if ltb 30 (n + m)
            then refused sum_range
            else (if leb m 16
                then byte (skip_gap ((n - 1) * 16 + (m - 1)))
                else byte (skip_gap ((29 - m) * 16 + (n - 1))))))

single_arg : List ℕ → Encoded
single_arg (depth ∷ []) = encode_immediate_single depth
single_arg _ = refused one_immediate

pair_arg : List ℕ → Encoded
pair_arg (n ∷ (m ∷ [])) = encode_immediate_pair n m
pair_arg _ = refused two_immediates

encode_args : Kind → List ℕ → Encoded
unfolding single_arg pair_arg
encode_args dupn args = single_arg args
encode_args swapn args = single_arg args
encode_args exchange args = pair_arg args
encode_args other args = refused no_immediates

unfoldable pub encode_immediate_args : Op → List ℕ → Encoded
unfolding encode_args
encode_immediate_args o args = encode_args (kind o) args

decode_args : Kind → ℕ → List ℕ
decode_args dupn imm = decode_immediate_single imm ∷ []
decode_args swapn imm = decode_immediate_single imm ∷ []
decode_args exchange imm = (decode_immediate_pair imm).0 ∷ ((decode_immediate_pair imm).1 ∷ [])
decode_args other imm = []

unfoldable pub decode_immediate : Op → ℕ → List ℕ
unfolding decode_args
decode_immediate o imm = decode_args (kind o) imm

validate : Kind → ℕ → Bool
validate dupn imm = leb imm 0x5a || leb 0x80 imm
validate swapn imm = leb imm 0x5a || leb 0x80 imm
validate exchange imm = leb imm 0x4f || leb 0xd0 imm
validate other imm = false

unfoldable pub validate_immediate : Op → ℕ → Bool
unfolding validate
validate_immediate o imm = validate (kind o) imm
