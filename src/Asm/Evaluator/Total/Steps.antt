-- ===== src/Asm/Evaluator/Total/Steps.antt =====
-- One step of eval ends, if the evaluations of smaller measure do.
use geas.Prelude.{
  ℕ, suc, ◌+◌, ◌<◌, ◌≡◌, inl, inr, Bool, true, false, Option, none, some, List, String, arith,
  Option-cases, nat_eq, string_eq,
}
use geas.Lzint.{Value}
use geas.Ast.{
  Expr, literal, label_ref, variable, macro_call, binary, unary, group, Exprs, ExpressionMacroDef,
}
use geas.Asm.Evaluator.Defs.{M, State, raise, Env, undefined_macro, undefined_builtin}
use geas.Asm.Evaluator.Builtins.{Services, Builtin}
use geas.Asm.Evaluator.{LabelEval, call_builtin, call_found, eval_macro_call, eval_step}
use geas.Asm.Evaluator.Arith.{unary_op, binary_op}
use geas.Asm.Evaluator.Total.{
  Ends, sizes, IsWellFormed, AreWellFormed, FitsArgs, measure, then_do-Ends,
}
use geas.Asm.Evaluator.Total.Ops.{unary_op-Ends, binary_op-Ends, label_value-Ends}
use geas.Asm.Evaluator.Total.Builtins.{EndsBelow, rank, run_builtin-Ends}
use geas.Asm.Evaluator.Total.Calls.{Known, eval_variable-Ends, call_macro-Ends}

module _ (find_macro : Env → String → Option ExpressionMacroDef) (services : Services)
    (labels : LabelEval) (eval : Env → Expr → M Value) (ids : List ℕ) (most fuel : ℕ)
    (evals : EndsBelow services ids most fuel eval) where
  call_builtin-Ends :
      (env : Env) (call : ℕ) (ident : String) (args : Exprs) (missing : M Value)
      (o : Option Builtin) (stack : List ℕ) (s : State)
      → s.in_stack ≡ stack
      → FitsArgs most env.macro_args
      → AreWellFormed args
      → rank ids most stack env.macro_args + sizes args < fuel
      → Ends services stack (missing s)
      → Ends services stack
          (call_builtin find_macro services labels eval env call ident args missing o s)
  unfolding call_builtin
  call_builtin-Ends env call ident args missing none stack s h fits wf small m = m
  call_builtin-Ends env call ident args missing (some b) stack s h fits wf small m =
      run_builtin-Ends services eval ids most fuel evals stack env fits ident args wf small b call s
        h

  abbrev pub FindsKnown : Type 0
  FindsKnown =
      (env : Env) (name : String) (def : ExpressionMacroDef)
      → find_macro env name ≡ some def
      → Known find_macro services labels eval ids most fuel evals def

  eval_macro_call-Ends :
      (env : Env) (call : ℕ) (ident : String) (builtin : Bool) (args : Exprs) (stack : List ℕ)
      (s : State)
      → FindsKnown
      → s.in_stack ≡ stack
      → FitsArgs most env.macro_args
      → AreWellFormed args
      → rank ids most stack env.macro_args + sizes args < fuel
      → Ends services stack
          (eval_macro_call find_macro services labels eval env call ident builtin args s)
  unfolding eval_macro_call call_found
  eval_macro_call-Ends env call ident true args stack s finds h fits wf small =
      call_builtin-Ends env call ident args (raise (undefined_builtin ident)) _ stack s h fits wf
        small h
  eval_macro_call-Ends env call ident false args stack s finds h fits wf small =
      elim (Option-cases (find_macro env ident)) [
        | inl e ↦ rw e (
            call_builtin-Ends env call ident args (raise (undefined_macro ident)) _ stack s h fits
              wf small h)
        | inr (def, e) ↦ rw e (
            call_macro-Ends find_macro services labels eval ids most fuel evals env ident args def
              stack s h fits wf small (finds env ident def e))
      ]

  abbrev pub LabelsEnd : Type 0
  LabelsEnd =
      (env : Env) (ident : String) (dotted : Bool) (stack : List ℕ) (s : State)
      → s.in_stack ≡ stack
      → Ends services stack (labels env ident dotted s)

  pub eval_step-Ends :
      (env : Env) (e : Expr) (stack : List ℕ) (s : State)
      → FindsKnown
      → LabelsEnd
      → s.in_stack ≡ stack
      → IsWellFormed e
      → FitsArgs most env.macro_args
      → measure ids most stack env.macro_args e < suc fuel
      → Ends services stack (eval_step find_macro services labels eval env e s)
  unfolding eval_step
  eval_step-Ends env (literal text v is_string) stack s finds lab h wf fits small = h
  eval_step-Ends env (label_ref ident dotted) stack s finds lab h wf fits small =
      then_do-Ends services stack _ _ (lab env ident dotted stack s h)
        λ pc t k. label_value-Ends services stack t k ident dotted pc
  eval_step-Ends env (group inner) stack s finds lab h wf fits small =
      evals stack env inner s h wf fits (omega arith)
  eval_step-Ends env (unary op e) stack s finds lab h wf fits small =
      then_do-Ends services stack _ _ (evals stack env e s h wf.1 fits (omega arith)) λ v t k.
        then_do-Ends services stack (unary_op op v.int t) _
          (rw wf.0 (unary_op-Ends services stack t k v.int)) λ i u l. l
  eval_step-Ends env (binary op l r) stack s finds lab h wf fits small =
      then_do-Ends services stack _ _ (evals stack env l s h wf.0 fits (omega arith)) λ v t k.
        then_do-Ends services stack _ _ (evals stack env r t k wf.1 fits (omega arith)) λ w u n.
          then_do-Ends services stack (binary_op services.can_shift op v.int w.int u) _
            (binary_op-Ends services stack u n op v.int w.int) λ i x m. m
  eval_step-Ends env (variable ident) stack s finds lab h wf fits small =
      eval_variable-Ends find_macro services labels eval ids most fuel evals ident env.macro_args
        (env.variables ident) stack s h fits (omega arith)
  eval_step-Ends env (macro_call call ident builtin args) stack s finds lab h wf fits small =
      eval_macro_call-Ends env call ident builtin args stack s finds h fits wf (omega arith)
