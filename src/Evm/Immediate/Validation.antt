-- ===== src/Evm/Immediate/Validation.antt =====
-- What ValidateImmediate, which guards the disassembler, says of the bytes that are encodings.
use geas.Prelude.{
  ℕ, ◌≤◌, ◌<◌, ◌≡◌, ◌↔◌, ◌⊎◌, inl, inr, List, [], ◌∷◌, true, false, arith, string_eq,
}
use geas.Evm.Op.{Op}
use geas.Evm.Immediate.{
  byte, encode_immediate_single, kind, dupn, swapn, exchange, encode_immediate_args,
  decode_immediate, validate_immediate,
}
use geas.Evm.Immediate.RoundTrip.{
  IsSingle, encode-decode_single, decode-encode_single, encode-decode_pair,
}

-- The range of the bytes that the test accepts for DUPN and SWAPN.
pub validate-IsSingle :
    (o : Op) (imm : ℕ)
    → imm < 256
    → (kind o ≡ dupn) ⊎ (kind o ≡ swapn)
    → (validate_immediate o imm ≡ true) ↔ IsSingle imm
unfolding validate_immediate
validate-IsSingle o imm h k = ground arith

encode_args_single :
    (o : Op) (imm : ℕ) (args : List ℕ)
    → (kind o ≡ dupn) ⊎ (kind o ≡ swapn)
    → encode_immediate_args o args ≡ byte imm
    → (depth : ℕ) × (encode_immediate_single depth ≡ byte imm)
unfolding encode_immediate_args
encode_args_single o imm [] k h = ground arith
encode_args_single o imm (depth ∷ []) k h = (depth, ground arith)
encode_args_single o imm (depth ∷ (x ∷ args)) k h = ground arith

single_encodes :
    (o : Op) (imm : ℕ)
    → (kind o ≡ dupn) ⊎ (kind o ≡ swapn)
    → IsSingle imm
    → encode_immediate_args o (decode_immediate o imm) ≡ byte imm
unfolding encode_immediate_args decode_immediate
single_encodes o imm (inl k) single = rw k (encode-decode_single imm single)
single_encodes o imm (inr k) single = rw k (encode-decode_single imm single)

-- For DUPN and SWAPN, ValidateImmediate accepts a byte exactly if EncodeImmediateArgs has arguments
-- that it encodes to this byte.
pub validate-encode_immediate_args :
    (o : Op) (imm : ℕ)
    → imm < 256
    → (kind o ≡ dupn) ⊎ (kind o ≡ swapn)
    → (validate_immediate o imm ≡ true)
      ↔ ((args : List ℕ) × (encode_immediate_args o args ≡ byte imm))
validate-encode_immediate_args o imm h k = (
  (λ v. (decode_immediate o imm, single_encodes o imm k ((validate-IsSingle o imm h k).0 v))),
  (λ (args, e).
      let (depth, f) = encode_args_single o imm args k e in
      let (low, high, single, back) = decode-encode_single depth imm f in
      (validate-IsSingle o imm h k).1 single),
)

-- For EXCHANGE it refuses the encodings 0x80 to 0xcf: the pairs they stand for are assembled, and
-- the disassembler calls the result invalid.
pub validate_rejects_encoding :
    (o : Op) (imm : ℕ)
    → kind o ≡ exchange
    → 0x80 ≤ imm
    → imm < 0xd0
    → (encode_immediate_args o (decode_immediate o imm) ≡ byte imm)
      × (validate_immediate o imm ≡ false)
unfolding validate_immediate encode_immediate_args decode_immediate
validate_rejects_encoding o imm k lo hi =
    (rw k (encode-decode_pair imm (inr (lo, omega arith))), rw k (ground arith))
