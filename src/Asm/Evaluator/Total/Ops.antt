-- ===== src/Asm/Evaluator/Total/Ops.antt =====
-- The operations that evaluate nothing end, do not panic and leave in_stack as it is.
use Prim.Native.Char.{Char}
use geas.Prelude.{
  ℕ, ◌≡◌, refl, ltb, ◌^◌, ◌-◌, inl, inr, Bool, Option, none, some, List, String, arith, Bool-cases,
  not, ◌&&◌, nat_eq, string_eq,
}
use geas.Prelude.Int.{ℤ, is_negative, magnitude}
use geas.Prelude.Big.{rsh}
use geas.Lzint
use geas.Lzint.{Value, BytesResult}
use geas.Ast.{
  ArithOp, arith_plus, arith_minus, arith_mul, arith_div, arith_mod, arith_lshift, arith_rshift,
  arith_and, arith_or, arith_xor, Expr, literal, label_ref, variable, macro_call, binary, unary,
  group, Exprs, no_args, arg, LabelDef, info,
}
use geas.Asm.Evaluator.Defs.{M, return, State, EvalError, Env}
use geas.Asm.Evaluator.Arith.{unary_op, binary_op, shift, left_shift}
use geas.Asm.Evaluator.Builtins.{
  Services, one_arg, as_bytes, literal_text, warn_deprecated, assemble_file, assemble_new,
  resolve_relative, store_assembled, store_compiled, selector_of, address_value,
}
use geas.Asm.Evaluator.{Context, label_value, eval_label, resolved_pc, used_pc}
use geas.Asm.Evaluator.Total.{Ends, then_do-Ends}

module _ (services : Services) (stack : List ℕ) (s : State) (h : s.in_stack ≡ stack) where
  pub one_arg-Ends : (ident : String) (args : Exprs) → Ends services stack (one_arg ident args s)
  unfolding one_arg
  one_arg-Ends ident no_args = h
  one_arg-Ends ident (arg e no_args) = h
  one_arg-Ends ident (arg e (arg f es)) = h

  pub as_bytes-Ends : (r : BytesResult) → Ends services stack (as_bytes r s)
  unfolding as_bytes
  as_bytes-Ends (Lzint.ok bs) = h
  as_bytes-Ends (Lzint.err e) = h

  pub literal_text-Ends : (err : EvalError) (e : Expr) → Ends services stack (literal_text err e s)
  unfolding literal_text
  literal_text-Ends err (literal text v is_string) = h
  literal_text-Ends err (label_ref ident dotted) = h
  literal_text-Ends err (variable ident) = h
  literal_text-Ends err (macro_call call ident builtin args) = h
  literal_text-Ends err (binary op l r) = h
  literal_text-Ends err (unary op e) = h
  literal_text-Ends err (group e) = h

  pub warn_deprecated-Ends :
      (call : ℕ) (name replacement : String)
      → Ends services stack (warn_deprecated call name replacement s)
  unfolding warn_deprecated
  warn_deprecated-Ends call name replacement = ground arith

  pub selector_of-Ends :
      (sv : Services) (text : String) → Ends services stack (selector_of sv text s)
  unfolding selector_of
  selector_of-Ends sv text = ground arith

  pub address_value-Ends :
      (sv : Services) (text : String) (o : Option (List ℕ))
      → Ends services stack (address_value sv text o s)
  unfolding address_value
  address_value-Ends sv text none = h
  address_value-Ends sv text (some addr) = ground arith

  pub unary_op-Ends : (i : ℤ) → Ends services stack (unary_op arith_minus i s)
  unfolding unary_op
  unary_op-Ends i = h

  shift-Ends :
      (f : ℤ → ℕ → M ℤ) (negative overflow : EvalError) (left right : ℤ)
      → ((n : ℕ) → Ends services stack (f left n s))
      → Ends services stack (shift f negative overflow left right s)
  unfolding shift
  shift-Ends f negative overflow left right ends = elim (Bool-cases (is_negative right)) [
    | inl e ↦ rw e h
    | inr e ↦ elim (Bool-cases (ltb (2 ^ 64 - 1) (magnitude right))) [
      | inl l ↦ rw (e, l) h
      | inr l ↦ rw (e, l) (ends (magnitude right))
    ]
  ]

  left_shift-Ends :
      (left : ℤ) (n : ℕ) → Ends services stack (left_shift services.can_shift left n s)
  unfolding left_shift
  left_shift-Ends left n = elim (Bool-cases (services.can_shift left n)) [
    | inl e ↦ rw e h
    | inr e ↦ rw e e
  ]

  pub binary_op-Ends :
      (op : ArithOp) (left right : ℤ)
      → Ends services stack (binary_op services.can_shift op left right s)
  unfolding binary_op
  binary_op-Ends arith_plus left right = h
  binary_op-Ends arith_minus left right = h
  binary_op-Ends arith_mul left right = h
  binary_op-Ends arith_div left right = ground arith
  binary_op-Ends arith_mod left right = ground arith
  binary_op-Ends arith_and left right = h
  binary_op-Ends arith_or left right = h
  binary_op-Ends arith_xor left right = h
  binary_op-Ends arith_lshift left right =
      shift-Ends (left_shift services.can_shift) _ _ left right (left_shift-Ends left)
  binary_op-Ends arith_rshift left right =
      shift-Ends (λ a n. return (rsh a n)) _ _ left right (λ n. h)

  resolve_relative-Ends :
      (sv : Services) (base filename : String)
      → Ends services stack (resolve_relative sv base filename s)
  unfolding resolve_relative
  resolve_relative-Ends sv base filename = ground arith

  pub label_value-Ends :
      (ident : String) (dotted : Bool) (o : Option ℕ)
      → Ends services stack (label_value ident dotted o s)
  label_value-Ends ident dotted none = h
  label_value-Ends ident dotted (some pc) = h

  used_pc-Ends :
      (is_upper : Char → Bool) (c : Context) (li : LabelDef) (o : Option ℕ)
      → Ends services stack (used_pc is_upper c li o s)
  unfolding used_pc
  used_pc-Ends is_upper c li none = h
  used_pc-Ends is_upper c li (some i) = h

store_assembled-Ends :
    (stack : List ℕ) (sv : Services) (doc : ℕ) (filename file : String) (s : State)
    → s.in_stack ≡ stack
    → Ends sv stack (store_assembled sv doc filename file s)
unfolding store_assembled
store_assembled-Ends stack sv doc filename file s h = by_result (sv.compile_file file) refl
  where
    by_result :
        (o : Option (List ℕ × List ℕ))
        → sv.compile_file file ≡ o
        → Ends sv stack (store_compiled sv doc filename file o s)
    by_result none e = e
    by_result (some (bytecode, messages)) e = h

pub assemble_file-Ends :
    (stack : List ℕ) (s : State) (h : s.in_stack ≡ stack) (sv : Services) (env : Env)
    (filename : String)
    → Ends sv stack (assemble_file sv env filename s)
unfolding assemble_file
assemble_file-Ends stack s h sv env filename = new (s.assembled (info env.doc).id filename)
  where
    new : (o : Option Value) → Ends sv stack (assemble_new sv env filename o s)
    new (some v) = h
    new none =
        then_do-Ends sv stack _ _
          (resolve_relative-Ends sv stack s h sv (info env.doc).file filename)
          λ file t k. store_assembled-Ends stack sv (info env.doc).id filename file t k

resolved_pc-Ends :
    (is_upper : Char → Bool) (c : Context) (env : Env) (ident : String) (dotted : Bool)
    (o : Option LabelDef) (stack : List ℕ) (s : State)
    → s.in_stack ≡ stack
    → Ends c.services stack (resolved_pc is_upper c env ident dotted o s)
unfolding resolved_pc
resolved_pc-Ends is_upper c env ident dotted none stack s h = h
resolved_pc-Ends is_upper c env ident dotted (some li) stack s h =
    elim (Bool-cases (dotted && not li.dotted)) [
      | inl e ↦ rw e h
      | inr e ↦ rw e (used_pc-Ends c.services stack s h is_upper c li _)
    ]

pub eval_label-Ends :
    (is_upper : Char → Bool) (c : Context) (env : Env) (ident : String) (dotted : Bool)
    (stack : List ℕ) (s : State)
    → s.in_stack ≡ stack
    → Ends c.services stack (eval_label is_upper c env ident dotted s)
unfolding eval_label
eval_label-Ends is_upper c env ident dotted stack s h = elim (Bool-cases c.labels_valid) [
  | inl e ↦ rw e (resolved_pc-Ends is_upper c env ident dotted _ stack s h)
  | inr e ↦ rw e h
]
