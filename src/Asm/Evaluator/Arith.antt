-- ===== src/Asm/Evaluator/Arith.antt =====
-- asm/evaluator.go, evalArith and evalUnary: the operations, once the operands are values. A shift
-- amount is a uint of 64 bits.
pub mod Division
use geas.Prelude.{ℕ, Bool, true, false, List, [], ◌∷◌, ltb, ◌==◌, nat_eq, if◌then◌else◌, ◌^◌, ◌-◌}
use geas.Prelude.Int.{ℤ, pos, negsuc, is_negative, magnitude}
use geas.Prelude.Big.{neg, ◌+ℤ◌, ◌-ℤ◌, ◌*ℤ◌, div, mod_of, land, lor, lxor, lsh, rsh}
use geas.Ast.{
  ArithOp, arith_plus, arith_minus, arith_mul, arith_div, arith_mod, arith_lshift, arith_rshift,
  arith_and, arith_or, arith_xor,
}
use geas.Asm.Evaluator.Defs.{
  M, fail, no_memory, return, raise, panics, EvalError, division_by_zero, modulo_by_zero,
  negative_lshift, negative_rshift, lshift_overflow, rshift_overflow,
}

abbrev exhausted : ℤ → ℕ → M ℤ
exhausted left amount s = fail (no_memory left amount) s

unfoldable pub unary_op : ArithOp → ℤ → M ℤ
unary_op arith_minus a = return (neg a)
unary_op _ a = panics

-- math/big panics on a shift whose result is too long for a slice: `can_shift` is whether it returns.
unfoldable pub left_shift : (ℤ → ℕ → Bool) → ℤ → ℕ → M ℤ
left_shift can_shift left amount =
    if can_shift left amount then return (lsh left amount) else exhausted left amount

unfoldable pub shift : (ℤ → ℕ → M ℤ) → EvalError → EvalError → ℤ → ℤ → M ℤ
shift f negative overflow left right =
    if is_negative right
    then raise negative
    else (if ltb (2 ^ 64 - 1) (magnitude right) then raise overflow else f left (magnitude right))

unfoldable pub binary_op : (ℤ → ℕ → Bool) → ArithOp → ℤ → ℤ → M ℤ
unfolding shift left_shift
binary_op can_shift arith_plus left right = return (left +ℤ right)
binary_op can_shift arith_minus left right = return (left -ℤ right)
binary_op can_shift arith_mul left right = return (left *ℤ right)
binary_op can_shift arith_div left right =
    if magnitude right == 0 then raise division_by_zero else return (div left right)
binary_op can_shift arith_mod left right =
    if magnitude right == 0 then raise modulo_by_zero else return (mod_of left right)
binary_op can_shift arith_and left right = return (land left right)
binary_op can_shift arith_or left right = return (lor left right)
binary_op can_shift arith_xor left right = return (lxor left right)
binary_op can_shift arith_lshift left right =
    shift (left_shift can_shift) negative_lshift lshift_overflow left right
binary_op can_shift arith_rshift left right =
    shift (λ a n. return (rsh a n)) negative_rshift rshift_overflow left right
