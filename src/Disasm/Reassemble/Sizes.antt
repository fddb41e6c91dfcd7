-- ===== src/Disasm/Reassemble/Sizes.antt =====
-- The sizes and operands that are printed: what the assembler reads them back as.
use Prim.Native.String.{◌++◌ as append}
use geas.Prelude.{
  ℕ, zero, suc, ◌+◌, ◌<◌, ◌≡◌, refl, ap, sym, Bool, true, false, ◌&&◌, some, List, [], ◌∷◌, arith,
  inl, inr, length, take, All, Bool-cases, nat_eq, string_eq, ◌==◌, ltb, String, replicate,
  nat_beq_iff, length-append, length-replicate,
}
use mathlib.Core.Path.{subst}
use geas.Prelude.Int.{pos}
use geas.Evm.Op.{Op}
use geas.Evm.Immediate.{
  byte, Kind, dupn, swapn, exchange, other, kind, encode_immediate_args, decode_immediate,
  validate_immediate,
}
use geas.Evm.Immediate.RoundTrip.{IsPair, encode-decode_single, encode-decode_pair}
use geas.Evm.Immediate.Validation.{validate-IsSingle}
use geas.Evm.Effect.{push_size, decimal, atoi, trim_prefix}
use geas.Lzint.{Value, bytes_nat, nat_bytes, leading_zeros}
use geas.Lzint.Bytes.{IsByte}
use geas.Lzint.RoundTrip.{zeros_and_digits}
use geas.Asm.Program.{Instruction}
use geas.Asm.Arguments.{assign_push_arg, pre_stored}

pub encode-decode_kind :
    (k : Kind) (o : Op) (imm : ℕ)
    → kind o ≡ k
    → imm < 256
    → validate_immediate o imm ≡ true
    → encode_immediate_args o (decode_immediate o imm) ≡ byte imm
unfolding encode_immediate_args decode_immediate
encode-decode_kind dupn o imm k h v =
    rw k (encode-decode_single imm ((validate-IsSingle o imm h (inl k)).0 v))
encode-decode_kind swapn o imm k h v =
    rw k (encode-decode_single imm ((validate-IsSingle o imm h (inr k)).0 v))
encode-decode_kind exchange o imm k h v =
    let in_pairs : IsPair imm = unfold validate_immediate in ground arith in
    rw k (encode-decode_pair imm in_pairs)
encode-decode_kind other o imm k h v = absurd (unfold validate_immediate in ground arith)

-- The number of bytes that the name of a PUSH says, up to a bound.
sizes_agree : ℕ → Bool
unfolding atoi trim_prefix decimal
sizes_agree zero = true
sizes_agree (suc n) = (atoi (trim_prefix (append "PUSH" (decimal n)) "PUSH") == n) && sizes_agree n

sizes_agree-below :
    (m n : ℕ)
    → sizes_agree m ≡ true
    → n < m
    → atoi (trim_prefix (append "PUSH" (decimal n)) "PUSH") ≡ n
unfolding sizes_agree
sizes_agree-below zero n h less = absurd (omega arith)
sizes_agree-below (suc m) n h less = elim (Bool-cases (n == m)) [
  | inl e ↦
      let same : n ≡ m = (nat_beq_iff n m).0 e in
      subst (λ x. atoi (trim_prefix (append "PUSH" (decimal x)) "PUSH") ≡ x) (sym same)
        ((nat_beq_iff _ _).0 (ground arith))
  | inr e ↦ sizes_agree-below m n (ground arith) (ground (arith, nat_beq_iff n m))
]

all_sizes_agree : sizes_agree 33 ≡ true
unfolding sizes_agree atoi trim_prefix decimal
all_sizes_agree = refl

pub push_size-name :
    (o : Op) (n : ℕ) → n < 33 → o.name ≡ append "PUSH" (decimal n) → push_size o ≡ n
unfolding push_size
push_size-name o n less name = rw name (sizes_agree-below 33 n all_sizes_agree less)

-- A literal of as many bytes as the size says.
pub literal_size :
    (bs : List ℕ)
    → All IsByte bs
    → leading_zeros bs + length (nat_bytes (bytes_nat 0 bs)) ≡ length bs
literal_size bs h =
    let parts = zeros_and_digits bs h in
    ground (
      arith,
      ap length parts,
      length-append (replicate (leading_zeros bs) 0) (nat_bytes (bytes_nat 0 bs)),
      length-replicate {A = ℕ} (leading_zeros bs) 0,
    )

pub All-take : (n : ℕ) (xs : List ℕ) → All IsByte xs → All IsByte (take n xs)
All-take zero xs h = tt
All-take (suc n) [] h = tt
All-take (suc n) (x ∷ xs) h = (h.0, All-take n xs h.1)

-- A literal with the size of its PUSH is stored.
pub assigned_literal :
    (push0 : Bool) (i : Instruction String) (v : Value) (bs : List ℕ) (n : ℕ)
    → All IsByte bs
    → n < 33
    → length bs ≡ n
    → v.int ≡ pos (bytes_nat 0 bs)
    → i.explicit_size ≡ some n
    → i.data_size ≡ n
    → pre_stored i (assign_push_arg push0 i v.int true)
      ≡ (record i { data_bytes = nat_bytes (bytes_nat 0 bs) }, [])
unfolding assign_push_arg pre_stored
assigned_literal push0 i v bs n h less same number_of explicit size =
    let fits = literal_size bs h in
    let small : ltb 32 (length (nat_bytes (bytes_nat 0 bs))) ≡ false = ground arith in
    let enough : ltb n (length (nat_bytes (bytes_nat 0 bs))) ≡ false = ground arith in
    rw (number_of, explicit, size) (rw (small, enough) refl)
