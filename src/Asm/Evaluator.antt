-- ===== src/Asm/Evaluator.antt =====
-- asm/evaluator.go: the value of an expression in an environment. The recursion is on fuel: one step
-- of eval is `eval_step`, which is given the evaluation of other expressions.
pub mod Defs
pub mod Arith
pub mod Builtins
pub mod Agree
pub mod Total
mod Tests
use Prim.Native.Char.{Char}
use geas.Prelude.{
  ℕ, zero, suc, Bool, true, false, not, ◌&&◌, Option, none, some, List, [], ◌∷◌, String, ◌==◌,
  nat_eq, string_eq, if◌then◌else◌, length, get_elem?, Map, empty, insert, delete,
}
use geas.Prelude.Int.{pos}
use geas.Lzint.{Value, from_int}
use geas.Ast.{
  Document, info, Expr, literal, label_ref, variable, macro_call, binary, unary, group, Exprs,
  no_args, arg, args_list, LabelDef, ExpressionMacroDef, is_global,
}
use geas.Loader.{Program, find_up, or_else, lookup_expr_macro, lookup_label}
use geas.Asm.Evaluator.Defs.{
  M, State, Result, ok, fail, then_do, restore, ◌>>=◌, ◌>>◌, return, raise, panics, guard,
  out_of_fuel, Section, MacroArgs, no_macro_args, macro_args, Env, new_eval_environment,
  unassigned_label, undefined_label, dotted_reference, undefined_variable, undefined_builtin,
  undefined_macro, recursive_call, argument_count,
}
use geas.Asm.Evaluator.Arith.{unary_op, binary_op}
use geas.Asm.Evaluator.Builtins.{Services, Builtin, builtin_macros, run_builtin, member}

-- A label of the output program: its document, its definition, and the instruction it points to.
pub record CompilerLabel : Type 0 where
  pub doc : ℕ
  pub def : LabelDef
  pub instr : ℕ

abbrev pub LabelMap : Type 0
LabelMap = Option ℕ → ℕ → Option ℕ

abbrev same_doc : Option ℕ → Option ℕ → Bool
same_doc none none = true
same_doc (some d) (some d') = d == d'
same_doc _ _ = false

-- What an evaluator reads: the overrides, the program with its instantiated global labels, and the
-- labels with the PCs of the instructions, which are of use once `labels_valid` is set.
pub record Context : Type 0 where
  pub services : Services
  pub overrides : Map String ExpressionMacroDef
  pub prog : Program
  pub global_labels : Map String LabelDef
  pub label_instr : LabelMap
  pub labels_valid : Bool
  pub pc : ℕ → ℕ

-- The key of a label: a global one has no document.
unfoldable pub label_key : (Char → Bool) → CompilerLabel → Option ℕ
unfolding is_global
label_key is_upper cl = if is_global is_upper cl.def.ident then none else some cl.doc

-- A later label takes the place of an earlier one with its key.
unfoldable pub add_labels : (Char → Bool) → List CompilerLabel → LabelMap → LabelMap
unfolding label_key
add_labels is_upper [] m = m
add_labels is_upper (cl ∷ labels) m = add_labels is_upper labels λ doc l.
    if same_doc (label_key is_upper cl) doc && cl.def.id == l then some cl.instr else m doc l

unfoldable pub register_labels : (Char → Bool) → List CompilerLabel → Context → Context
unfolding add_labels
register_labels is_upper labels c = record c {
  label_instr = add_labels is_upper labels c.label_instr;
  labels_valid = true;
}

unfoldable pub use_label : ℕ → State → State
use_label l s = record s { used_labels = l ∷ s.used_labels }

-- The in_stack set.
unfoldable pub enter_macro : ExpressionMacroDef → State → State
enter_macro def s = record s { in_stack = def.id ∷ s.in_stack }

unfoldable pub remove : ℕ → List ℕ → List ℕ
remove n [] = []
remove n (m ∷ ms) = if n == m then remove n ms else m ∷ remove n ms

unfoldable pub exit_macro : ExpressionMacroDef → State → State
unfolding remove
exit_macro def s = record s { in_stack = remove def.id s.in_stack }

-- slices.Index
unfoldable pub index_of : String → List String → Option ℕ
index_of name [] = none
index_of name (x ∷ xs) =
    if name == x then some 0 else elim (index_of name xs) [ none ↦ none | some i ↦ some (suc i) ]

-- A label reference: a definition, an instruction, a PC.
abbrev pub LabelEval : Type 0
LabelEval = Env → String → Bool → M (Option ℕ)

module _ (is_upper : Char → Bool) (c : Context) where
  -- lookupExprMacro
  unfoldable pub find_expr_macro : Env → String → Option ExpressionMacroDef
  unfolding or_else
  find_expr_macro env name =
      or_else (c.overrides name) (lookup_expr_macro is_upper c.prog name env.doc)

  -- compilerProg.LookupLabel
  unfoldable pub find_label : String → Document → Option LabelDef
  unfolding or_else
  find_label name doc = or_else (c.global_labels name) (lookup_label is_upper c.prog name doc).0

  unfoldable pub label_instruction : Env → String → LabelDef → Option ℕ
  unfolding is_global find_up
  label_instruction env ident li =
      if is_global is_upper ident
      then c.label_instr none li.id
      else find_up (λ d. c.label_instr (some d) li.id) env.doc

  unfoldable pub used_pc : LabelDef → Option ℕ → M (Option ℕ)
  unfolding use_label
  used_pc li none s = ok none s
  used_pc li (some i) s = ok (some (c.pc i)) (use_label li.id s)

  unfoldable pub resolved_pc : Env → String → Bool → Option LabelDef → M (Option ℕ)
  unfolding label_instruction used_pc
  resolved_pc env ident dotted none = raise (undefined_label ident dotted)
  resolved_pc env ident dotted (some li) =
      if dotted && not li.dotted
      then raise (dotted_reference ident dotted)
      else used_pc li (label_instruction env ident li)

  -- lookupLabel: `none` for a PC that is not valid.
  unfoldable pub eval_label : LabelEval
  unfolding find_label resolved_pc
  eval_label env ident dotted =
      if not c.labels_valid
      then return none
      else resolved_pc env ident dotted (find_label ident env.doc)

abbrev label_value : String → Bool → Option ℕ → M Value
label_value ident dotted none = raise (unassigned_label ident dotted)
label_value ident dotted (some pc) = return (from_int (pos pc))

module _ (find_macro : Env → String → Option ExpressionMacroDef) (services : Services)
    (labels : LabelEval) (eval : Env → Expr → M Value) where
  -- The argument of a parameter, in the scope of the call.
  eval_param : Section → Option Expr → M Value
  eval_param callsite none = panics
  eval_param callsite (some e) = eval (new_eval_environment callsite) e

  -- At what slices.Index gives.
  eval_index : String → List Expr → Section → Option ℕ → M Value
  unfolding eval_param
  eval_index ident args callsite none = raise (undefined_variable ident)
  eval_index ident args callsite (some i) = eval_param callsite (get_elem? args i)

  eval_outer : String → MacroArgs → M Value
  unfolding eval_index index_of
  eval_outer ident no_macro_args = raise (undefined_variable ident)
  eval_outer ident (macro_args params args callsite) =
      eval_index ident args callsite (index_of ident params)

  unfoldable pub eval_variable : String → MacroArgs → Option Value → M Value
  unfolding eval_outer
  eval_variable ident args (some v) = return v
  eval_variable ident args none = eval_outer ident args

  -- The loop over the parameters, with the variables bound so far.
  unfoldable pub bind_args : Env → List String → List Expr → Map String Value → M (Map String Value)
  bind_args env [] args vars = return vars
  bind_args env (param ∷ params) [] vars = panics
  bind_args env (param ∷ params) (e ∷ es) vars = do
    v ← eval env e
    bind_args env params es (insert param v vars)

  -- The body of a macro, entered and left.
  unfoldable pub eval_body : ExpressionMacroDef → String → Map String Value → M Value
  unfolding enter_macro exit_macro member
  eval_body def ident vars s =
      if member def.id s.in_stack
      then raise (recursive_call ident) s
      else restore (exit_macro def) (
          eval (record { doc = def.document; macro_args = no_macro_args; variables = vars })
            def.body (enter_macro def s))

  unfoldable pub call_macro : Env → String → Exprs → ExpressionMacroDef → M Value
  unfolding bind_args eval_body
  call_macro env ident args def = do
    guard (length (args_list args) == length def.params) (argument_count ident (length def.params))
    vars ← bind_args env def.params (args_list args) empty
    eval_body def ident vars

  unfoldable pub call_builtin : Env → ℕ → String → Exprs → M Value → Option Builtin → M Value
  unfolding run_builtin
  call_builtin env call ident args missing none = missing
  call_builtin env call ident args missing (some b) =
      run_builtin services eval b env call ident args

  unfoldable pub call_found : Env → ℕ → String → Exprs → Option ExpressionMacroDef → M Value
  unfolding call_macro call_builtin builtin_macros
  call_found env call ident args (some def) = call_macro env ident args def
  call_found env call ident args none =
      call_builtin env call ident args (raise (undefined_macro ident)) (builtin_macros ident)

  unfoldable pub eval_macro_call : Env → ℕ → String → Bool → Exprs → M Value
  unfolding call_found call_builtin builtin_macros
  eval_macro_call env call ident builtin args =
      if builtin
      then call_builtin env call ident args (raise (undefined_builtin ident)) (builtin_macros ident)
      else call_found env call ident args (find_macro env ident)

  unfoldable pub eval_step : Env → Expr → M Value
  unfolding eval_variable eval_macro_call unary_op binary_op
  eval_step env (literal text v is_string) = return v
  eval_step env (label_ref ident dotted) = do
    pc ← labels env ident dotted
    label_value ident dotted pc
  eval_step env (group inner) = eval env inner
  eval_step env (unary op e) = do v ← eval env e; i ← unary_op op v.int; return (from_int i)
  eval_step env (binary op l r) = do
    left ← eval env l
    right ← eval env r
    i ← binary_op services.can_shift op left.int right.int
    return (from_int i)
  eval_step env (variable ident) = eval_variable ident env.macro_args (env.variables ident)
  eval_step env (macro_call call ident builtin args) = eval_macro_call env call ident builtin args

unfoldable pub eval_with :
    (Env → String → Option ExpressionMacroDef) → Services → LabelEval → ℕ → Env → Expr → M Value
unfolding eval_step
eval_with find_macro services labels zero env e s = fail out_of_fuel s
eval_with find_macro services labels (suc fuel) env e s =
    eval_step find_macro services labels (eval_with find_macro services labels fuel) env e s

unfoldable pub eval : (Char → Bool) → Context → ℕ → Env → Expr → M Value
unfolding eval_with find_expr_macro eval_label
eval is_upper c = eval_with (find_expr_macro is_upper c) c.services (eval_label is_upper c)
