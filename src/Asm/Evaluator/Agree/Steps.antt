-- ===== src/Asm/Evaluator/Agree/Steps.antt =====
-- One step of eval agrees with another one, if the evaluations inside do.
use geas.Prelude.{
  ℕ, refl, inl, inr, Bool, true, false, Option, none, some, List, [], ◌∷◌, String, ◌==◌, nat_eq,
  string_eq, Map, empty, insert, length, get_elem?, Bool-cases,
}
use geas.Lzint.{Value}
use geas.Ast.{
  Expr, literal, label_ref, variable, macro_call, binary, unary, group, Exprs, args_list,
  ExpressionMacroDef,
}
use geas.Asm.Evaluator.Defs.{
  M, State, Failure, ◌>>=◌, raise, guard, Section, MacroArgs, no_macro_args, macro_args, Env,
  new_eval_environment, argument_count, undefined_builtin, undefined_macro,
}
use geas.Asm.Evaluator.Builtins.{Services, Builtin, builtin_macros, member}
use geas.Asm.Evaluator.{
  LabelEval, label_value, eval_param, eval_index, eval_outer, eval_variable, bind_args, eval_body,
  call_macro, call_builtin, call_found, eval_macro_call, eval_step, index_of, exit_macro,
  enter_macro,
}
use geas.Asm.Evaluator.Agree.{Agree, same_start, then_do-Agree, restore-Agree, run_builtin-Agree}

module _ (bad : Failure → Type 0) where
  module _ (find_macro : Env → String → Option ExpressionMacroDef) (services : Services)
      (labels labels' : LabelEval) (eval eval' : Env → Expr → M Value)
      (evals : (env : Env) (e : Expr) (s : State) → Agree bad (eval env e s) (eval' env e s)) where
    eval_param-Agree :
        (callsite : Section) (o : Option Expr) (s : State)
        → Agree bad
            (eval_param find_macro services labels eval callsite o s)
            (eval_param find_macro services labels' eval' callsite o s)
    unfolding eval_param
    eval_param-Agree callsite none s = inr refl
    eval_param-Agree callsite (some e) s = evals (new_eval_environment callsite) e s

    eval_index-Agree :
        (ident : String) (args : List Expr) (callsite : Section) (o : Option ℕ) (s : State)
        → Agree bad
            (eval_index find_macro services labels eval ident args callsite o s)
            (eval_index find_macro services labels' eval' ident args callsite o s)
    unfolding eval_index
    eval_index-Agree ident args callsite none s = inr refl
    eval_index-Agree ident args callsite (some i) s = eval_param-Agree callsite (get_elem? args i) s

    eval_variable-Agree :
        (ident : String) (args : MacroArgs) (o : Option Value) (s : State)
        → Agree bad
            (eval_variable find_macro services labels eval ident args o s)
            (eval_variable find_macro services labels' eval' ident args o s)
    unfolding eval_variable eval_outer
    eval_variable-Agree ident args (some v) s = inr refl
    eval_variable-Agree ident no_macro_args none s = inr refl
    eval_variable-Agree ident (macro_args params args callsite) none s =
        eval_index-Agree ident args callsite (index_of ident params) s

    bind_args-Agree :
        (env : Env) (params : List String) (args : List Expr) (vars : Map String Value) (s : State)
        → Agree bad
            (bind_args find_macro services labels eval env params args vars s)
            (bind_args find_macro services labels' eval' env params args vars s)
    unfolding bind_args
    bind_args-Agree env [] args vars s = inr refl
    bind_args-Agree env (param ∷ params) [] vars s = inr refl
    bind_args-Agree env (param ∷ params) (e ∷ es) vars s =
        then_do-Agree bad _ _ _ _ (evals env e s)
          λ v t. bind_args-Agree env params es (insert param v vars) t

    eval_body-Agree :
        (def : ExpressionMacroDef) (ident : String) (vars : Map String Value) (s : State)
        → Agree bad
            (eval_body find_macro services labels eval def ident vars s)
            (eval_body find_macro services labels' eval' def ident vars s)
    unfolding eval_body
    eval_body-Agree def ident vars s = elim (Bool-cases (member def.id s.in_stack)) [
      | inl e ↦ rw e (inr refl)
      | inr e ↦ rw e (restore-Agree bad (exit_macro def) _ _ (evals _ def.body (enter_macro def s)))
    ]

    call_macro-Agree :
        (env : Env) (ident : String) (args : Exprs) (def : ExpressionMacroDef) (s : State)
        → Agree bad
            (call_macro find_macro services labels eval env ident args def s)
            (call_macro find_macro services labels' eval' env ident args def s)
    unfolding call_macro
    call_macro-Agree env ident args def s =
        same_start bad
          (guard (length (args_list args) == length def.params)
            (argument_count ident (length def.params)) s)
          _ _
          λ _ t.
            then_do-Agree bad _ _ _ _ (bind_args-Agree env def.params (args_list args) empty t)
              λ vars u. eval_body-Agree def ident vars u

    call_builtin-Agree :
        (env : Env) (call : ℕ) (ident : String) (args : Exprs) (missing : M Value)
        (o : Option Builtin) (s : State)
        → Agree bad
            (call_builtin find_macro services labels eval env call ident args missing o s)
            (call_builtin find_macro services labels' eval' env call ident args missing o s)
    unfolding call_builtin
    call_builtin-Agree env call ident args missing none s = inr refl
    call_builtin-Agree env call ident args missing (some b) s =
        run_builtin-Agree bad services eval eval' evals b env call ident args s

    call_found-Agree :
        (env : Env) (call : ℕ) (ident : String) (args : Exprs) (o : Option ExpressionMacroDef)
        (s : State)
        → Agree bad
            (call_found find_macro services labels eval env call ident args o s)
            (call_found find_macro services labels' eval' env call ident args o s)
    unfolding call_found
    call_found-Agree env call ident args (some def) s = call_macro-Agree env ident args def s
    call_found-Agree env call ident args none s =
        call_builtin-Agree env call ident args (raise (undefined_macro ident))
          (builtin_macros ident) s

    eval_macro_call-Agree :
        (env : Env) (call : ℕ) (ident : String) (builtin : Bool) (args : Exprs) (s : State)
        → Agree bad
            (eval_macro_call find_macro services labels eval env call ident builtin args s)
            (eval_macro_call find_macro services labels' eval' env call ident builtin args s)
    unfolding eval_macro_call
    eval_macro_call-Agree env call ident true args s =
        call_builtin-Agree env call ident args (raise (undefined_builtin ident))
          (builtin_macros ident) s
    eval_macro_call-Agree env call ident false args s =
        call_found-Agree env call ident args (find_macro env ident) s

    abbrev pub LabelsAgree : Type 0
    LabelsAgree =
        (env : Env) (ident : String) (dotted : Bool) (s : State)
        → Agree bad ((labels env ident dotted >>= label_value ident dotted) s)
            ((labels' env ident dotted >>= label_value ident dotted) s)

    pub eval_step-Agree :
        LabelsAgree
        → (env : Env) (e : Expr) (s : State)
        → Agree bad
            (eval_step find_macro services labels eval env e s)
            (eval_step find_macro services labels' eval' env e s)
    unfolding eval_step
    eval_step-Agree found env (literal text v is_string) s = inr refl
    eval_step-Agree found env (label_ref ident dotted) s = found env ident dotted s
    eval_step-Agree found env (group inner) s = evals env inner s
    eval_step-Agree found env (unary op e) s =
        then_do-Agree bad _ _ _ _ (evals env e s) λ v t. inr refl
    eval_step-Agree found env (binary op l r) s =
        then_do-Agree bad _ _ _ _ (evals env l s)
          λ v t. then_do-Agree bad _ _ _ _ (evals env r t) λ w u. inr refl
    eval_step-Agree found env (variable ident) s =
        eval_variable-Agree ident env.macro_args (env.variables ident) s
    eval_step-Agree found env (macro_call call ident builtin args) s =
        eval_macro_call-Agree env call ident builtin args s
