-- ===== src/Asm/Evaluator/Agree/Labels.antt =====
-- Evaluation before and after the labels are registered.
use Prim.Native.Char.{Char}
use geas.Prelude.{ℕ, zero, suc, ◌≡◌, refl, ◌⊎◌, inl, inr, String, Option, none, Bool, false, List}
use geas.Ast.{Expr, ExpressionMacroDef}
use geas.Asm.Evaluator.Defs.{State, Failure, error, unassigned_label, ok, fail, Env}
use geas.Asm.Evaluator.Builtins.{Services}
use geas.Asm.Evaluator.{
  Context, CompilerLabel, LabelEval, eval_with, eval, eval_label, find_expr_macro, register_labels,
}
use geas.Asm.Evaluator.Agree.{Agree}
use geas.Asm.Evaluator.Agree.Steps.{eval_step-Agree}

abbrev IsUnassigned : Failure → Type 0
IsUnassigned f = (ident : String) × (dotted : Bool) × (f ≡ error (unassigned_label ident dotted))

module _ (find_macro : Env → String → Option ExpressionMacroDef) (services : Services)
    (labels labels' : LabelEval)
    (unassigned : (env : Env) (ident : String) (dotted : Bool) (s : State)
      → labels env ident dotted s ≡ ok none s) where
  eval_with-labels :
      (fuel : ℕ) (env : Env) (e : Expr) (s : State)
      → Agree IsUnassigned
          (eval_with find_macro services labels fuel env e s)
          (eval_with find_macro services labels' fuel env e s)
  unfolding eval_with
  eval_with-labels zero env e s = inr refl
  eval_with-labels (suc fuel) env e s =
      eval_step-Agree IsUnassigned find_macro services labels labels'
        (eval_with find_macro services labels fuel) (eval_with find_macro services labels' fuel)
        (eval_with-labels fuel)
        (λ env' ident dotted t. inl (
          error (unassigned_label ident dotted),
          t,
          (ident, dotted, refl),
          rw (unassigned env' ident dotted t) refl,
        ))
        env e s

no_labels :
    (is_upper : Char → Bool) (c : Context) (env : Env) (ident : String) (dotted : Bool) (s : State)
    → c.labels_valid ≡ false
    → eval_label is_upper c env ident dotted s ≡ ok none s
unfolding eval_label
no_labels is_upper c env ident dotted s h = rw h refl

-- Before labels are registered, an expression either fails with the error of an unassigned label, or
-- has the result, and leaves the state, that it has with whatever labels and PCs come later.
pub eval-register_labels :
    (is_upper : Char → Bool) (c : Context) (labels : List CompilerLabel) (pc : ℕ → ℕ) (fuel : ℕ)
    (env : Env) (e : Expr) (s : State)
    → c.labels_valid ≡ false
    → ((ident : String) × (dotted : Bool) × (t : State) × (eval is_upper c fuel env e s
          ≡ fail (error (unassigned_label ident dotted)) t))
      ⊎ (eval is_upper c fuel env e s
          ≡ eval is_upper (record (register_labels is_upper labels c) { pc = pc }) fuel env e s)
unfolding eval find_expr_macro register_labels
eval-register_labels is_upper c labels pc fuel env e s h =
    elim (eval_with-labels (find_expr_macro is_upper c) c.services (eval_label is_upper c)
      (eval_label is_upper (record (register_labels is_upper labels c) { pc = pc }))
      (λ env' ident dotted t. no_labels is_upper c env' ident dotted t h) fuel env e s) [
        | inl (f, t, (ident, dotted, b), p) ↦ inl (ident, dotted, t, rw (← b) p)
        | inr p ↦ inr p
      ]
