-- ===== src/Evm/Immediate/RoundTrip.antt =====
-- Encoding and decoding of immediates are inverse to each other on their ranges.
use geas.Prelude.{ℕ, ◌+◌, ◌≤◌, ◌<◌, ◌≡◌, ◌⊎◌, arith, nat_eq}
use geas.Evm.Immediate.{
  byte, encode_immediate_single, decode_immediate_single, encode_immediate_pair,
  decode_immediate_pair,
}

-- The bytes that stand for a depth, and for a pair of positions, in EIP-8024.
abbrev pub IsSingle : ℕ → Type 0
IsSingle b = (b ≤ 90) ⊎ ((128 ≤ b) × (b < 256))

abbrev pub IsPair : ℕ → Type 0
IsPair b = (b ≤ 79) ⊎ ((128 ≤ b) × (b < 256))

-- A depth that encodes to a byte is between 17 and 235; the byte is one that stands for a depth, and
-- decoding it gives the depth back.
pub decode-encode_single :
    (depth b : ℕ)
    → encode_immediate_single depth ≡ byte b
    → (17 ≤ depth)
      × (depth ≤ 235)
      × ((b ≤ 90) ⊎ ((128 ≤ b) × (b < 256)))
      × (decode_immediate_single b ≡ depth)
unfolding encode_immediate_single decode_immediate_single
decode-encode_single depth b h = (ground arith, ground arith, ground arith, ground arith)

-- Each byte that stands for a depth decodes to a depth that encodes to this byte.
pub encode-decode_single :
    (b : ℕ) → IsSingle b → encode_immediate_single (decode_immediate_single b) ≡ byte b
unfolding encode_immediate_single decode_immediate_single
encode-decode_single b h = ground arith

-- A pair (n, m) that encodes to a byte has 1 ≤ n < m and n + m ≤ 30; the byte is one that stands
-- for a pair, and decoding it gives the pair back.
pub decode-encode_pair :
    (n m b : ℕ)
    → encode_immediate_pair n m ≡ byte b
    → (1 ≤ n)
      × (n < m)
      × (n + m ≤ 30)
      × ((b ≤ 79) ⊎ ((128 ≤ b) × (b < 256)))
      × (decode_immediate_pair b ≡ (n, m))
unfolding encode_immediate_pair decode_immediate_pair
decode-encode_pair n m b h = (ground arith, ground arith, ground arith, ground arith, ground arith)

-- Each byte that stands for a pair decodes to a pair that encodes to this byte.
pub encode-decode_pair :
    (b : ℕ)
    → IsPair b
    → encode_immediate_pair (decode_immediate_pair b).0 (decode_immediate_pair b).1 ≡ byte b
unfolding encode_immediate_pair decode_immediate_pair
encode-decode_pair b h = ground arith
