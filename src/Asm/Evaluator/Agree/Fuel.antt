-- ===== src/Asm/Evaluator/Agree/Fuel.antt =====
-- Evaluation with more fuel.
use Prim.Native.Char.{Char}
use geas.Prelude.{ℕ, zero, suc, ◌+◌, ◌≡◌, ◌≢◌, refl, sym, inl, inr, String, Option, Bool, arith}
use geas.Ast.{Expr, ExpressionMacroDef}
use geas.Asm.Evaluator.Defs.{State, Failure, out_of_fuel, fail, Env}
use geas.Asm.Evaluator.Builtins.{Services}
use geas.Asm.Evaluator.{Context, LabelEval, eval_with, eval, eval_label, find_expr_macro}
use geas.Asm.Evaluator.Agree.{Agree}
use geas.Asm.Evaluator.Agree.Steps.{eval_step-Agree}

abbrev Ran : Failure → Type 0
Ran f = f ≡ out_of_fuel

eval_with-more :
    (find_macro : Env → String → Option ExpressionMacroDef) (services : Services)
    (labels : LabelEval) (k fuel : ℕ) (env : Env) (e : Expr) (s : State)
    → Agree Ran
        (eval_with find_macro services labels fuel env e s)
        (eval_with find_macro services labels (fuel + k) env e s)
unfolding eval_with
eval_with-more find_macro services labels k zero env e s = inl (out_of_fuel, s, refl, refl)
eval_with-more find_macro services labels k (suc fuel) env e s =
    let add : suc fuel + k ≡ suc (fuel + k) = omega arith in
    rw add (
      eval_step-Agree Ran find_macro services labels labels
        (eval_with find_macro services labels fuel)
        (eval_with find_macro services labels (fuel + k))
        (eval_with-more find_macro services labels k fuel) (λ env' ident dotted t. inr refl) env e
        s)

-- An evaluation that does not run out of fuel has the same result, and leaves the same state, with
-- more fuel.
pub eval-more_fuel :
    (is_upper : Char → Bool) (c : Context) (k fuel : ℕ) (env : Env) (e : Expr) (s : State)
    → ((t : State) → eval is_upper c fuel env e s ≢ fail out_of_fuel t)
    → eval is_upper c (fuel + k) env e s ≡ eval is_upper c fuel env e s
unfolding eval
eval-more_fuel is_upper c k fuel env e s ends =
    elim (eval_with-more (find_expr_macro is_upper c) c.services (eval_label is_upper c) k fuel env
      e s) [ inl (f, t, b, p) ↦ absurd (ends t (rw (← b) p)) | inr p ↦ sym p ]
