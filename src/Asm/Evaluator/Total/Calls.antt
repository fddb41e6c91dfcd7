-- ===== src/Asm/Evaluator/Total/Calls.antt =====
-- Variables and calls of expression macros end, if the evaluations of smaller measure do.
use geas.Prelude.{
  ℕ, zero, suc, ◌+◌, ◌*◌, ◌<◌, ◌≤◌, ◌≡◌, ap, inl, inr, true, false, Option, none, some, List, [],
  ◌∷◌, String, arith, All, Bool-cases, Option-cases, ◌==◌, nat_eq, nat_beq_iff, string_eq, length,
  get_elem?, Map, empty, insert,
}
use geas.Lzint.{Value}
use geas.Ast.{Expr, Exprs, no_args, arg, args_list, ExpressionMacroDef}
use geas.Asm.Evaluator.Defs.{
  M, State, Result, ok, fail, error, panic, out_of_fuel, no_return, no_memory, restore, Env,
  Section, section, MacroArgs, no_macro_args, macro_args, new_eval_environment,
}
use geas.Asm.Evaluator.Builtins.{Services, member}
use geas.Asm.Evaluator.{
  LabelEval, eval_param, eval_index, eval_outer, eval_variable, bind_args, eval_body, call_macro,
  index_of, exit_macro, enter_macro,
}
use geas.Asm.Evaluator.Total.{
  Ends, size, sizes, IsWellFormed, AreWellFormed, Fits, FitsArgs, FitsSection, depth, section_depth,
  remaining, remaining_lt, remove_entered, rank_lt, then_do-Ends,
}
use geas.Asm.Evaluator.Total.Builtins.{EndsBelow, rank}

index_of-lt : (name : String) (xs : List String) (i : ℕ) → index_of name xs ≡ some i → i < length xs
unfolding index_of
index_of-lt name [] i h = cc
index_of-lt name (x ∷ xs) i h = elim (Option-cases (index_of name xs)) [
  | inl e ↦ ground (arith, e)
  | inr (j, e) ↦ ground (arith, e, index_of-lt name xs j e)
]

abbrev ItFits : ℕ → Option Expr → Type 0
ItFits most none = ⊥
ItFits most (some e) = Fits most e

get_elem?-ItFits :
    (most : ℕ) (xs : List Expr) (i : ℕ)
    → All (Fits most) xs
    → i < length xs
    → ItFits most (get_elem? xs i)
get_elem?-ItFits most [] i all h = absurd (omega arith)
get_elem?-ItFits most (x ∷ xs) zero all h = all.0
get_elem?-ItFits most (x ∷ xs) (suc i) all h = get_elem?-ItFits most xs i all.1 (omega arith)

args_small :
    (r fuel : ℕ) (args : Exprs)
    → AreWellFormed args
    → r + sizes args < fuel
    → All (λ e. IsWellFormed e × (r + size e < fuel)) (args_list args)
args_small r fuel no_args w h = tt
args_small r fuel (arg e es) w h = ((w.0, omega arith), args_small r fuel es w.1 (omega arith))

restore-Ends :
    {A : Type 0} (services : Services) (def : ExpressionMacroDef) (stack : List ℕ) (r : Result A)
    → member def.id stack ≡ false
    → Ends services (def.id ∷ stack) r
    → Ends services stack (restore (exit_macro def) r)
unfolding exit_macro
restore-Ends services def stack (ok a s) n h = rw h (remove_entered def.id stack n)
restore-Ends services def stack (fail (error e) s) n h = rw h (remove_entered def.id stack n)
restore-Ends services def stack (fail panic s) n h = h
restore-Ends services def stack (fail out_of_fuel s) n h = h
restore-Ends services def stack (fail (no_return file) s) n h = h
restore-Ends services def stack (fail (no_memory a m) s) n h = h

module _ (find_macro : Env → String → Option ExpressionMacroDef) (services : Services)
    (labels : LabelEval) (eval : Env → Expr → M Value) (ids : List ℕ) (most fuel : ℕ)
    (evals : EndsBelow services ids most fuel eval) where
  eval_param-Ends :
      (callsite : Section) (o : Option Expr) (stack : List ℕ) (s : State)
      → s.in_stack ≡ stack
      → FitsSection most callsite
      → ItFits most o
      → (remaining ids stack + suc (section_depth callsite)) * suc most ≤ fuel
      → Ends services stack (eval_param find_macro services labels eval callsite o s)
  unfolding eval_param new_eval_environment
  eval_param-Ends callsite none stack s h fits wf small = absurd wf
  eval_param-Ends (section doc args) (some e) stack s h fits wf small =
      evals stack _ e s h wf.0 fits (
        omega (
          arith,
          rank_lt most (remaining ids stack + depth args) (remaining ids stack + suc (depth args))
              (size e) 0,
        ))

  pub eval_variable-Ends :
      (ident : String) (args : MacroArgs) (o : Option Value) (stack : List ℕ) (s : State)
      → s.in_stack ≡ stack
      → FitsArgs most args
      → rank ids most stack args ≤ fuel
      → Ends services stack (eval_variable find_macro services labels eval ident args o s)
  unfolding eval_variable eval_outer eval_index
  eval_variable-Ends ident args (some v) stack s h fits small = h
  eval_variable-Ends ident no_macro_args none stack s h fits small = h
  eval_variable-Ends ident (macro_args params args callsite) none stack s h fits small =
      elim (Option-cases (index_of ident params)) [
        | inl e ↦ rw e h
        | inr (i, e) ↦ rw e (
            eval_param-Ends callsite (get_elem? args i) stack s h fits.2
              (get_elem?-ItFits most args i fits.1 (omega (arith, index_of-lt ident params i e)))
              small)
      ]

  bind_args-Ends :
      (env : Env) (params : List String) (args : List Expr) (vars : Map String Value)
      (stack : List ℕ) (s : State)
      → s.in_stack ≡ stack
      → FitsArgs most env.macro_args
      → length args ≡ length params
      → All (λ e. IsWellFormed e × (rank ids most stack env.macro_args + size e < fuel)) args
      → Ends services stack (bind_args find_macro services labels eval env params args vars s)
  unfolding bind_args
  bind_args-Ends env [] args vars stack s h fits same all = h
  bind_args-Ends env (param ∷ params) [] vars stack s h fits same all = absurd (omega arith)
  bind_args-Ends env (param ∷ params) (e ∷ es) vars stack s h fits same all =
      then_do-Ends services stack _ _ (evals stack env e s h all.0.0 fits all.0.1) λ v t k.
        bind_args-Ends env params es (insert param v vars) stack t k fits (omega arith) all.1

  abbrev pub Known : ExpressionMacroDef → Type 0
  Known def = (member def.id ids ≡ true) × Fits most def.body

  eval_body-Ends :
      (def : ExpressionMacroDef) (ident : String) (vars : Map String Value) (stack : List ℕ)
      (s : State)
      → s.in_stack ≡ stack
      → Known def
      → remaining ids stack * suc most ≤ fuel
      → Ends services stack (eval_body find_macro services labels eval def ident vars s)
  unfolding eval_body enter_macro
  eval_body-Ends def ident vars stack s h known small =
      elim (Bool-cases (member def.id s.in_stack)) [
        | inl e ↦ rw e h
        | inr e ↦
            let absent : member def.id stack ≡ false = rw (← h) e in
            let fewer = remaining_lt ids stack def.id known.0 absent in
            rw e (
              restore-Ends services def stack _ absent (
                evals (def.id ∷ stack) _ def.body _ (ap (λ l. def.id ∷ l) h) known.1.0 tt (
                  le_of_rank
                    (rank_lt most (remaining ids (def.id ∷ stack) + depth no_macro_args)
                      (remaining ids stack) (size def.body) 0 (omega arith) known.1.1)
                    small)))
      ]
    where
      le_of_rank : {a b : ℕ} → a < b + 0 → b ≤ fuel → a < fuel
      le_of_rank h k = omega arith

  pub call_macro-Ends :
      (env : Env) (ident : String) (args : Exprs) (def : ExpressionMacroDef) (stack : List ℕ)
      (s : State)
      → s.in_stack ≡ stack
      → FitsArgs most env.macro_args
      → AreWellFormed args
      → rank ids most stack env.macro_args + sizes args < fuel
      → Known def
      → Ends services stack (call_macro find_macro services labels eval env ident args def s)
  unfolding call_macro
  call_macro-Ends env ident args def stack s h fits wf small known =
      elim (Bool-cases (length (args_list args) == length def.params)) [
        | inr e ↦ rw e h
        | inl e ↦ rw e (
            then_do-Ends services stack _ _
              (bind_args-Ends env def.params (args_list args) empty stack s h fits
                ((nat_beq_iff _ _).0 e) (args_small _ fuel args wf small))
              λ vars t k. eval_body-Ends def ident vars stack t k known (grind arith))
      ]
