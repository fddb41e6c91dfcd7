-- ===== src/Asm/Evaluator/Arith/Division.antt =====
-- Division and modulo by a value other than 0.
use geas.Prelude.{
  ℕ, zero, suc, ◌+◌, ◌-◌, ◌*◌, ◌/◌, ◌%◌, ◌<◌, ◌≡◌, ◌≢◌, refl, sym, ap, Bool, true, false, arith,
  nat_eq,
}
use geas.Prelude.Int.{ℤ, pos, negsuc, magnitude, is_negative}
use geas.Prelude.Big.{signed, ◌+ℤ◌, ◌*ℤ◌, div, mod_of}
use geas.Ast.{arith_div, arith_mod}
use geas.Asm.Evaluator.Defs.{State, ok}
use geas.Asm.Evaluator.Arith.{binary_op}

quotient_times : (a k : ℕ) → (a / suc k) * suc k + a % suc k ≡ a
quotient_times a k = grind arith

mod_small : (a k : ℕ) → a % suc k < suc k
mod_small a k = grind arith

-- A quotient and a remainder, for a dividend and a divisor.
abbrev Divides : ℤ → ℤ → ℤ → ℤ → Type 0
Divides left right q r =
    (left ≡ q *ℤ right +ℤ r) × (is_negative r ≡ false) × (magnitude r < magnitude right)

div-Divides_pos :
    (a : ℕ) (right : ℤ)
    → magnitude right ≢ 0
    → Divides (pos a) right (div (pos a) right) (mod_of (pos a) right)
unfolding div mod_of ◌*ℤ◌ ◌+ℤ◌
div-Divides_pos a (pos zero) h = absurd (h refl)
div-Divides_pos a (pos (suc k)) h = (ap pos (sym (quotient_times a k)), refl, mod_small a k)
div-Divides_pos a (negsuc k) h = (by_quotient (a / suc k) (quotient_times a k), refl, mod_small a k)
  where
    by_quotient :
        (m : ℕ) → m * suc k + a % suc k ≡ a → pos a ≡ signed true m *ℤ negsuc k +ℤ pos (a % suc k)
    by_quotient zero e =
        let none_left : 0 * suc k ≡ 0 = omega arith in rw none_left (ap pos (omega (arith, e)))
    by_quotient (suc m) e = ap pos (sym e)

-- The remainder for a negative dividend -(a + 1).
negative_sum :
    (a k m : ℕ)
    → m * suc k + a % suc k ≡ a
    → negsuc a ≡ signed true (suc m * suc k) +ℤ pos (suc k - 1 - a % suc k)
unfolding ◌+ℤ◌
negative_sum a k m e =
    let product : suc m * suc k ≡ suc (m * suc k + k) = grind arith in
    rw product (ground (arith, e, mod_small a k))

div-Divides_neg :
    (a : ℕ) (right : ℤ)
    → magnitude right ≢ 0
    → Divides (negsuc a) right (div (negsuc a) right) (mod_of (negsuc a) right)
unfolding div mod_of ◌*ℤ◌
div-Divides_neg a (pos zero) h = absurd (h refl)
div-Divides_neg a (pos (suc k)) h =
    (negative_sum a k (a / suc k) (quotient_times a k), refl, omega arith)
div-Divides_neg a (negsuc k) h =
    (negative_sum a k (a / suc k) (quotient_times a k), refl, omega arith)

div-Divides :
    (left right : ℤ) → magnitude right ≢ 0 → Divides left right (div left right) (mod_of left right)
div-Divides (pos a) right h = div-Divides_pos a right h
div-Divides (negsuc a) right h = div-Divides_neg a right h

-- Division and modulo of an expression by a value other than 0 give the Euclidean quotient and
-- remainder: the dividend is the quotient times the divisor plus the remainder, which is not negative
-- and smaller than the divisor's magnitude.
pub binary_op_divides :
    (can_shift : ℤ → ℕ → Bool) (left right : ℤ) (s : State)
    → magnitude right ≢ 0
    → (q r : ℤ) × (binary_op can_shift arith_div left right s ≡ ok q s)
      × (binary_op can_shift arith_mod left right s ≡ ok r s)
      × (left ≡ q *ℤ right +ℤ r)
      × (is_negative r ≡ false)
      × (magnitude r < magnitude right)
unfolding binary_op
binary_op_divides can_shift left right s h =
    let (sum, positive, small) = div-Divides left right h in
    (div left right, mod_of left right, ground arith, ground arith, sum, positive, small)
