-- ===== src/Lzint/Bytes.antt =====
-- The bytes of a number: how many there are, and that they stand for the number.
use geas.Prelude.{
  true, all_below, all_below_sound, nat_beq_iff, ℕ, zero, suc, ◌+◌, ◌*◌, ◌/◌, ◌%◌, ◌≤◌, ◌<◌, ◌≡◌,
  refl, ap, ◌∙◌, sym, List, [], ◌∷◌, ◌++◌, length, length-append, All, arith, ◌==◌, nat_eq,
}
use mathlib.Core.List.{append-nil, append_assoc}
use native.Mathlib.Decide.{dec_le}
use geas.Lzint.{byte_digits, nat_bytes, bytes_nat, bit_digits, bit_len}

abbrev pub IsByte : ℕ → Type 0
IsByte b = b < 256

-- Fuel beyond the number changes nothing.
byte_digits-fuel : (f g n : ℕ) → n ≤ f → n ≤ g → byte_digits f n ≡ byte_digits g n
unfolding byte_digits
byte_digits-fuel zero zero n h k = refl
byte_digits-fuel zero (suc g) n h k = ground arith
byte_digits-fuel (suc f) zero n h k = ground arith
byte_digits-fuel (suc f) (suc g) n h k = ground (arith, byte_digits-fuel f g (n / 256))

pub nat_bytes-zero : nat_bytes 0 ≡ []
unfolding nat_bytes
nat_bytes-zero = refl

pub nat_bytes-step : (n : ℕ) → 0 < n → nat_bytes n ≡ nat_bytes (n / 256) ++ (n % 256) ∷ []
unfolding nat_bytes
nat_bytes-step zero h = absurd (omega arith)
nat_bytes-step (suc n) h = ground (arith, byte_digits-fuel n (suc n / 256) (suc n / 256))

bit_digits-fuel : (f g n : ℕ) → n ≤ f → n ≤ g → bit_digits f n ≡ bit_digits g n
unfolding bit_digits
bit_digits-fuel zero zero n h k = refl
bit_digits-fuel zero (suc g) n h k = ground arith
bit_digits-fuel (suc f) zero n h k = ground arith
bit_digits-fuel (suc f) (suc g) n h k = ground (arith, bit_digits-fuel f g (n / 2))

bit_len-zero : bit_len 0 ≡ 0
unfolding bit_len
bit_len-zero = refl

bit_len-step : (n : ℕ) → 0 < n → bit_len n ≡ suc (bit_len (n / 2))
unfolding bit_len
bit_len-step zero h = absurd (omega arith)
bit_len-step (suc n) h = ground (arith, bit_digits-fuel n (suc n / 2) (suc n / 2))

-- Eight steps at once, and the first byte.
bit_len-byte : (n : ℕ) → 256 ≤ n → bit_len n ≡ 8 + bit_len (n / 256)
bit_len-byte n h =
    let low : n / 2 / 2 / 2 / 2 / 2 / 2 / 2 / 2 ≡ n / 256 = omega arith in
    omega (
      arith,
      bit_len-step (n) (omega arith),
      bit_len-step (n / 2) (omega arith),
      bit_len-step (n / 2 / 2) (omega arith),
      bit_len-step (n / 2 / 2 / 2) (omega arith),
      bit_len-step (n / 2 / 2 / 2 / 2) (omega arith),
      bit_len-step (n / 2 / 2 / 2 / 2 / 2) (omega arith),
      bit_len-step (n / 2 / 2 / 2 / 2 / 2 / 2) (omega arith),
      bit_len-step (n / 2 / 2 / 2 / 2 / 2 / 2 / 2) (omega arith),
      ap bit_len low,
    )

one_byte : all_below 255 (λ m. (bit_len (suc m) + 7) / 8 == 1) ≡ true
unfolding all_below bit_len
one_byte = refl

bit_len_small : (n : ℕ) → 0 < n → n < 256 → (bit_len n + 7) / 8 ≡ 1
bit_len_small zero p h = absurd (omega arith)
bit_len_small (suc n) p h =
    (nat_beq_iff ((bit_len (suc n) + 7) / 8) 1).0
      (all_below_sound 255 (λ m. (bit_len (suc m) + 7) / 8 == 1) n one_byte (omega arith))

-- The number of bytes, for every number below the bound.
length-nat_bytes_below : (k n : ℕ) → n ≤ k → length (nat_bytes n) ≡ (bit_len n + 7) / 8
length-nat_bytes_below k zero h = rw (nat_bytes-zero, bit_len-zero)
length-nat_bytes_below zero (suc n) h = absurd (omega arith)
length-nat_bytes_below (suc k) (suc n) h = elim (dec_le 256 (suc n)) [
  | yes big ↦ omega (
    arith,
    ap length (nat_bytes-step (suc n) (omega arith)),
    length-append (nat_bytes (suc n / 256)) ((suc n % 256) ∷ []),
    bit_len-byte (suc n) big,
    length-nat_bytes_below k (suc n / 256) (omega arith),
  )
  | no small ↦
      let none_left : suc n / 256 ≡ 0 = omega arith in
      omega (
        arith,
        ap length (nat_bytes-step (suc n) (omega arith)),
        length-append (nat_bytes (suc n / 256)) ((suc n % 256) ∷ []),
        ap (λ m. length (nat_bytes m)) none_left,
        ap length nat_bytes-zero,
        bit_len_small (suc n) (omega arith) (omega arith),
      )
]

-- (bitLen + 7) / 8 is the length of the minimal big-endian representation.
pub length-nat_bytes : (n : ℕ) → length (nat_bytes n) ≡ (bit_len n + 7) / 8
length-nat_bytes n = length-nat_bytes_below n n (omega arith)

bytes_nat-append :
    (acc : ℕ) (xs : List ℕ) (b : ℕ) → bytes_nat acc (xs ++ b ∷ []) ≡ bytes_nat acc xs * 256 + b
unfolding bytes_nat
bytes_nat-append acc [] b = refl
bytes_nat-append acc (x ∷ xs) b = bytes_nat-append (acc * 256 + x) xs b

bytes_nat-nat_bytes_below : (k n : ℕ) → n ≤ k → bytes_nat 0 (nat_bytes n) ≡ n
bytes_nat-nat_bytes_below k zero h = rw nat_bytes-zero (unfold bytes_nat in refl)
bytes_nat-nat_bytes_below zero (suc n) h = absurd (omega arith)
bytes_nat-nat_bytes_below (suc k) (suc n) h =
    rw (nat_bytes-step (suc n) (omega arith), bytes_nat-append)
      (omega (arith, bytes_nat-nat_bytes_below k (suc n / 256) (omega arith)))

-- Reading the bytes of a number gives the number.
pub bytes_nat-nat_bytes : (n : ℕ) → bytes_nat 0 (nat_bytes n) ≡ n
bytes_nat-nat_bytes n = bytes_nat-nat_bytes_below n n (omega arith)

nat_bytes-push :
    (acc x : ℕ) → 0 < acc * 256 + x → IsByte x → nat_bytes (acc * 256 + x) ≡ nat_bytes acc ++ x ∷ []
nat_bytes-push acc x p h =
    let front : (acc * 256 + x) / 256 ≡ acc = omega arith in
    let last : (acc * 256 + x) % 256 ≡ x = omega arith in
    rw (nat_bytes-step (acc * 256 + x) p, front, last) refl

pub nat_bytes-byte : (x : ℕ) → 0 < x → IsByte x → nat_bytes x ≡ x ∷ []
nat_bytes-byte x p h =
    let low : x / 256 ≡ 0 = omega arith in
    let self : x % 256 ≡ x = omega arith in rw (nat_bytes-step x p, low, self, nat_bytes-zero) refl

-- A number read from bytes after a nonzero start has the bytes of the start and then those.
pub nat_bytes-bytes_nat :
    (xs : List ℕ) (acc : ℕ)
    → 0 < acc
    → All IsByte xs
    → nat_bytes (bytes_nat acc xs) ≡ nat_bytes acc ++ xs
unfolding bytes_nat
nat_bytes-bytes_nat [] acc p h = sym (append-nil (nat_bytes acc))
nat_bytes-bytes_nat (x ∷ xs) acc p h =
    nat_bytes-bytes_nat xs (acc * 256 + x) (omega arith) h.1
    ∙ ap (λ l. l ++ xs) (nat_bytes-push acc x (omega arith) h.0)
    ∙ append_assoc (nat_bytes acc) (x ∷ []) xs
