-- ===== src/Asm/Evaluator/Total/Builtins.antt =====
-- A builtin macro ends, if the evaluations of smaller measure do.
use geas.Prelude.{ℕ, suc, ◌+◌, ◌*◌, ◌<◌, ◌≡◌, List, String, arith, nat_eq, string_eq}
use geas.Lzint.{Value, bytes}
use geas.Ast.{Expr, Exprs, no_args, arg}
use geas.Asm.Evaluator.Defs.{M, State, Env, MacroArgs, selector_literal, address_literal}
use geas.Asm.Evaluator.Builtins.{
  Services, Builtin, len_macro, abs_macro, intbits_macro, bytelen_macro, bitlen_macro,
  address_macro, selector_macro, keccak256_macro, sha256_macro, assemble_macro, run_builtin,
  eval_arg, eval_bytes,
}
use geas.Asm.Evaluator.Total.{
  Ends, sizes, IsWellFormed, AreWellFormed, FitsArgs, depth, remaining, measure, then_do-Ends,
}
use geas.Asm.Evaluator.Total.Ops.{
  one_arg-Ends, as_bytes-Ends, literal_text-Ends, warn_deprecated-Ends, selector_of-Ends,
  address_value-Ends, assemble_file-Ends,
}

-- Evaluations whose measure is below the fuel end.
abbrev pub EndsBelow : Services → List ℕ → ℕ → ℕ → (Env → Expr → M Value) → Type 0
EndsBelow services ids most fuel eval =
    (stack : List ℕ) (env : Env) (e : Expr) (s : State)
    → s.in_stack ≡ stack
    → IsWellFormed e
    → FitsArgs most env.macro_args
    → measure ids most stack env.macro_args e < fuel
    → Ends services stack (eval env e s)

abbrev pub rank : List ℕ → ℕ → List ℕ → MacroArgs → ℕ
rank ids most stack args = (remaining ids stack + depth args) * suc most

module _ (services : Services) (eval : Env → Expr → M Value) (ids : List ℕ) (most fuel : ℕ)
    (evals : EndsBelow services ids most fuel eval) where
  module _ (stack : List ℕ) (env : Env) (fits : FitsArgs most env.macro_args) (ident : String)
      (args : Exprs) (wf : AreWellFormed args)
      (small : rank ids most stack env.macro_args + sizes args < fuel) where
    eval_arg-Ends :
        (s : State)
        → s.in_stack ≡ stack
        → Ends services stack (eval_arg services eval env ident args s)
    unfolding eval_arg
    eval_arg-Ends s h = by_args args wf small
      where
        by_args :
            (es : Exprs)
            → AreWellFormed es
            → rank ids most stack env.macro_args + sizes es < fuel
            → Ends services stack (eval_arg services eval env ident es s)
        by_args no_args w k = h
        by_args (arg e no_args) w k = evals stack env e s h w.0 fits (omega arith)
        by_args (arg e (arg f es)) w k = h

    eval_bytes-Ends :
        (s : State)
        → s.in_stack ≡ stack
        → Ends services stack (eval_bytes services eval env ident args s)
    unfolding eval_bytes
    eval_bytes-Ends s h =
        then_do-Ends services stack _ _ (eval_arg-Ends s h)
          λ v t k. as_bytes-Ends services stack t k (bytes v)

    pub run_builtin-Ends :
        (b : Builtin) (call : ℕ) (s : State)
        → s.in_stack ≡ stack
        → Ends services stack (run_builtin services eval b env call ident args s)
    unfolding run_builtin
    run_builtin-Ends len_macro call s h =
        then_do-Ends services stack _ _ (eval_arg-Ends s h) λ v t k. k
    run_builtin-Ends intbits_macro call s h =
        then_do-Ends services stack _ _ (eval_arg-Ends s h) λ v t k. k
    run_builtin-Ends abs_macro call s h =
        then_do-Ends services stack _ _ (eval_arg-Ends s h) λ v t k. k
    run_builtin-Ends bytelen_macro call s h =
        then_do-Ends services stack _ _
          (eval_arg-Ends _ (warn_deprecated-Ends services stack s h call "bytelen" "len"))
          λ v t k. k
    run_builtin-Ends bitlen_macro call s h =
        then_do-Ends services stack _ _
          (eval_arg-Ends _ (warn_deprecated-Ends services stack s h call "bitlen" "intbits"))
          λ v t k. k
    run_builtin-Ends sha256_macro call s h =
        then_do-Ends services stack _ _ (eval_bytes-Ends s h) λ b t k. k
    run_builtin-Ends keccak256_macro call s h =
        then_do-Ends services stack _ _ (eval_bytes-Ends s h) λ b t k. k
    run_builtin-Ends assemble_macro call s h =
        then_do-Ends services stack _ _ (eval_bytes-Ends s h)
          λ b t k. assemble_file-Ends stack t k services env (services.bytes_text b)
    run_builtin-Ends selector_macro call s h =
        then_do-Ends services stack _ _ (one_arg-Ends services stack s h ident args) λ e t k.
          then_do-Ends services stack _ _ (literal_text-Ends services stack t k selector_literal e)
            λ text u l. selector_of-Ends services stack u l services text
    run_builtin-Ends address_macro call s h =
        then_do-Ends services stack _ _ (one_arg-Ends services stack s h ident args) λ e t k.
          then_do-Ends services stack _ _ (literal_text-Ends services stack t k address_literal e)
            λ text u l.
              address_value-Ends services stack u l services text (services.address_of text)
