-- ===== src/Asm/Evaluator/Agree.antt =====
-- How evaluations compare that differ in their labels or their fuel: they agree, unless the first
-- one ends with a failure of a given kind.
pub mod Steps
pub mod Labels
pub mod Fuel
use mathlib.Core.Path.{subst}
use geas.Prelude.{
  ℕ, zero, suc, ◌+◌, ◌≡◌, refl, ◌⊎◌, inl, inr, Bool, true, false, Option, none, some, List, [], ◌∷◌,
  String, ◌==◌, nat_eq, Map, empty, insert, length, get_elem?, Bool-cases, if◌then◌else◌,
}
use geas.Prelude.Int.{pos, magnitude}
use geas.Lzint.{Value, from_int, bytes, byte_len}
use geas.Ast.{
  Expr, literal, label_ref, variable, macro_call, binary, unary, group, Exprs, no_args, arg,
  args_list, ExpressionMacroDef,
}
use geas.Asm.Evaluator.Defs.{
  M, State, Result, Failure, error, panic, out_of_fuel, ok, fail, then_do, restore, ◌>>=◌, ◌>>◌,
  return, raise, guard, Section, MacroArgs, no_macro_args, macro_args, Env, new_eval_environment,
  argument_count, undefined_builtin, undefined_macro,
}
use geas.Asm.Evaluator.Builtins.{
  Services, Builtin, len_macro, abs_macro, intbits_macro, bytelen_macro, bitlen_macro,
  address_macro, selector_macro, keccak256_macro, sha256_macro, assemble_macro, builtin_macros,
  run_builtin, eval_arg, eval_bytes, one_arg, as_bytes, literal_text, warn_deprecated,
  assemble_file, member,
}
use geas.Asm.Evaluator.{
  LabelEval, label_value, eval_param, eval_outer, eval_variable, bind_args, eval_body, call_macro,
  call_builtin, call_found, eval_macro_call, eval_step, eval_with, index_of, exit_macro,
  enter_macro, unary_op, binary_op,
}

module _ (bad : Failure → Type 0) where
  abbrev pub Agree : {A : Type 0} → Result A → Result A → Type 0
  Agree r r' = ((f : Failure) × (s : State) × bad f × (r ≡ fail f s)) ⊎ (r ≡ r')

  same_start :
      {A B : Type 0} (r : Result A) (f g : A → M B)
      → ((a : A) (s : State) → Agree (f a s) (g a s))
      → Agree (then_do r f) (then_do r g)
  same_start (ok a s) f g h = h a s
  same_start (fail e s) f g h = inr refl

  then_do-Agree :
      {A B : Type 0} (r r' : Result A) (f g : A → M B)
      → Agree r r'
      → ((a : A) (s : State) → Agree (f a s) (g a s))
      → Agree (then_do r f) (then_do r' g)
  then_do-Agree r r' f g (inl (e, s, b, p)) h = inl (e, s, b, rw p refl)
  then_do-Agree r r' f g (inr p) h = rw p (same_start r' f g h)

  restore-Agree :
      {A : Type 0} (u : State → State) (r r' : Result A)
      → Agree r r'
      → Agree (restore u r) (restore u r')
  restore-Agree u r r' (inl (e, s, b, p)) = inl (e, u s, b, rw p refl)
  restore-Agree u r r' (inr p) = inr (rw p refl)

  module _ (services : Services) (eval eval' : Env → Expr → M Value)
      (evals : (env : Env) (e : Expr) (s : State) → Agree (eval env e s) (eval' env e s)) where
    eval_arg-Agree :
        (env : Env) (ident : String) (args : Exprs) (s : State)
        → Agree (eval_arg services eval env ident args s) (eval_arg services eval' env ident args s)
    unfolding eval_arg
    eval_arg-Agree env ident args s = same_start (one_arg ident args s) _ _ (evals env)

    eval_bytes-Agree :
        (env : Env) (ident : String) (args : Exprs) (s : State)
        → Agree
            (eval_bytes services eval env ident args s)
            (eval_bytes services eval' env ident args s)
    unfolding eval_bytes
    eval_bytes-Agree env ident args s =
        then_do-Agree _ _ _ _ (eval_arg-Agree env ident args s) λ v t. inr refl

    run_builtin-Agree :
        (b : Builtin) (env : Env) (call : ℕ) (ident : String) (args : Exprs) (s : State)
        → Agree
            (run_builtin services eval b env call ident args s)
            (run_builtin services eval' b env call ident args s)
    unfolding run_builtin
    run_builtin-Agree len_macro env call ident args s =
        then_do-Agree _ _ _ _ (eval_arg-Agree env ident args s) λ v t. inr refl
    run_builtin-Agree intbits_macro env call ident args s =
        then_do-Agree _ _ _ _ (eval_arg-Agree env ident args s) λ v t. inr refl
    run_builtin-Agree abs_macro env call ident args s =
        then_do-Agree _ _ _ _ (eval_arg-Agree env ident args s) λ v t. inr refl
    run_builtin-Agree bytelen_macro env call ident args s =
        then_do-Agree _ _ _ _ (eval_arg-Agree env ident args _) λ v t. inr refl
    run_builtin-Agree bitlen_macro env call ident args s =
        then_do-Agree _ _ _ _ (eval_arg-Agree env ident args _) λ v t. inr refl
    run_builtin-Agree sha256_macro env call ident args s =
        then_do-Agree _ _ _ _ (eval_bytes-Agree env ident args s) λ v t. inr refl
    run_builtin-Agree keccak256_macro env call ident args s =
        then_do-Agree _ _ _ _ (eval_bytes-Agree env ident args s) λ v t. inr refl
    run_builtin-Agree assemble_macro env call ident args s =
        then_do-Agree _ _ _ _ (eval_bytes-Agree env ident args s) λ v t. inr refl
    run_builtin-Agree address_macro env call ident args s = inr refl
    run_builtin-Agree selector_macro env call ident args s = inr refl
