-- ===== src/Prelude/Big.antt =====
-- math/big's operations on signed integers, as far as the program uses them.
use Prim.Native.Nat.{bit_and, bit_or, bit_xor}
use geas.Prelude.{
  ℕ, zero, suc, ◌+◌, ◌-◌, ◌*◌, ◌/◌, ◌%◌, ◌^◌, Bool, true, false, not, leb, if◌then◌else◌,
}
use geas.Prelude.Int.{ℤ, pos, negsuc, is_negative, magnitude}

-- -n or n
abbrev pub signed : Bool → ℕ → ℤ
signed false n = pos n
signed true zero = pos 0
signed true (suc n) = negsuc n

-- Neg
unfoldable pub neg : ℤ → ℤ
neg (pos n) = signed true n
neg (negsuc n) = pos (suc n)

-- a - b
abbrev pub sub_ℕ : ℕ → ℕ → ℤ
sub_ℕ a b = if leb b a then pos (a - b) else negsuc (b - a - 1)

-- Add
infixl 65 ◌+ℤ◌
unfoldable pub ◌+ℤ◌ : ℤ → ℤ → ℤ
pos a +ℤ pos b = pos (a + b)
pos a +ℤ negsuc b = sub_ℕ a (suc b)
negsuc a +ℤ pos b = sub_ℕ b (suc a)
negsuc a +ℤ negsuc b = negsuc (suc (a + b))

-- Sub
infixl 65 ◌-ℤ◌
unfoldable pub ◌-ℤ◌ : ℤ → ℤ → ℤ
unfolding ◌+ℤ◌ neg
a -ℤ b = a +ℤ neg b

-- Mul
infixl 70 ◌*ℤ◌
unfoldable pub ◌*ℤ◌ : ℤ → ℤ → ℤ
pos a *ℤ pos b = pos (a * b)
pos a *ℤ negsuc b = signed true (a * suc b)
negsuc a *ℤ pos b = signed true (suc a * b)
negsuc a *ℤ negsuc b = pos (suc a * suc b)

-- Div and Mod, which are Euclidean; the divisor is not 0.
unfoldable pub div : ℤ → ℤ → ℤ
div (pos a) b = signed (is_negative b) (a / magnitude b)
div (negsuc a) b = signed (not (is_negative b)) (suc (a / magnitude b))

unfoldable pub mod_of : ℤ → ℤ → ℤ
mod_of (pos a) b = pos (a % magnitude b)
mod_of (negsuc a) b = pos (magnitude b - 1 - a % magnitude b)

-- And, Or and Xor, on two's complements of unbounded width: negsuc n is the complement of n.
unfoldable pub land : ℤ → ℤ → ℤ
land (pos a) (pos b) = pos (bit_and a b)
land (pos a) (negsuc b) = pos (a - bit_and a b)
land (negsuc a) (pos b) = pos (b - bit_and a b)
land (negsuc a) (negsuc b) = negsuc (bit_or a b)

unfoldable pub lor : ℤ → ℤ → ℤ
lor (pos a) (pos b) = pos (bit_or a b)
lor (pos a) (negsuc b) = negsuc (b - bit_and a b)
lor (negsuc a) (pos b) = negsuc (a - bit_and a b)
lor (negsuc a) (negsuc b) = negsuc (bit_and a b)

unfoldable pub lxor : ℤ → ℤ → ℤ
lxor (pos a) (pos b) = pos (bit_xor a b)
lxor (pos a) (negsuc b) = negsuc (bit_xor a b)
lxor (negsuc a) (pos b) = negsuc (bit_xor a b)
lxor (negsuc a) (negsuc b) = pos (bit_xor a b)

-- Lsh and Rsh; Rsh rounds down.
unfoldable pub lsh : ℤ → ℕ → ℤ
lsh (pos a) k = pos (a * 2 ^ k)
lsh (negsuc a) k = negsuc (suc a * 2 ^ k - 1)

unfoldable pub rsh : ℤ → ℕ → ℤ
rsh (pos a) k = pos (a / 2 ^ k)
rsh (negsuc a) k = negsuc (a / 2 ^ k)

-- Abs
abbrev pub abs : ℤ → ℤ
abs a = pos (magnitude a)
