-- ===== src/Lzint/RoundTrip.antt =====
-- A value made from bytes gives the bytes back, leading zeros included.
use geas.Prelude.{
  ℕ, zero, suc, ◌+◌, ◌-◌, ◌*◌, ◌/◌, ◌≡◌, ap, ◌∙◌, List, [], ◌∷◌, ◌++◌, length, length-append,
  length-replicate, All, replicate, arith, ◌==◌, nat_eq, false,
}
use geas.Prelude.Int.{magnitude}
use geas.Lzint.{
  Value, ok, bytes, byte_len, from_bytes, fill_bytes, leading_zeros, nat_bytes, bytes_nat, bit_len,
}
use geas.Lzint.Bytes.{IsByte, length-nat_bytes, nat_bytes-bytes_nat, nat_bytes-byte, nat_bytes-zero}

-- The leading zeros and the digits of the number are all the bytes.
pub zeros_and_digits :
    (bs : List ℕ)
    → All IsByte bs
    → replicate (leading_zeros bs) 0 ++ nat_bytes (bytes_nat 0 bs) ≡ bs
unfolding leading_zeros bytes_nat
zeros_and_digits [] h = nat_bytes-zero
zeros_and_digits (zero ∷ bs) h = ap (◌∷◌ 0) (zeros_and_digits bs h.1)
zeros_and_digits (suc b ∷ bs) h =
    let nonzero : (suc b == 0) ≡ false = ground arith in
    let start : 0 + suc b ≡ suc b = omega arith in
    rw (nonzero, start)
      (nat_bytes-bytes_nat bs (suc b) (omega arith) h.1
        ∙ ap (λ l. l ++ bs) (nat_bytes-byte (suc b) (omega arith) h.0))

-- ByteLen counts the bytes that Bytes gives, for every value that has bytes.
pub byte_len-bytes : (v : Value) (bs : List ℕ) → bytes v ≡ ok bs → length bs ≡ byte_len v
unfolding bytes fill_bytes byte_len
byte_len-bytes v bs h =
    let n = magnitude v.int in
    let len = v.lznib / 2 + (bit_len n + 7) / 8 in
    let same : replicate (len - length (nat_bytes n)) 0 ++ nat_bytes n ≡ bs = ground arith in
    omega (
      arith,
      ap length same,
      length-append (replicate (len - length (nat_bytes n)) 0) (nat_bytes n),
      length-replicate {A = ℕ} (len - length (nat_bytes n)) 0,
      length-nat_bytes n,
    )

-- Bytes after FromBytes is the identity on byte slices.
pub bytes-from_bytes : (bs : List ℕ) → All IsByte bs → bytes (from_bytes bs) ≡ ok bs
unfolding bytes from_bytes fill_bytes byte_len
bytes-from_bytes bs h =
    let n = bytes_nat 0 bs in
    let pad : 2 * leading_zeros bs / 2 + (bit_len n + 7) / 8 - length (nat_bytes n)
        ≡ leading_zeros bs =
      omega (arith, length-nat_bytes n) in
    rw pad (ap ok (zeros_and_digits bs h))
