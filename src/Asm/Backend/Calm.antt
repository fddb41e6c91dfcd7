-- ===== src/Asm/Backend/Calm.antt =====
-- preEvaluateArgs: no #bytes instruction is left to evaluateArgs, and no error is its panic.
use geas.Prelude.{
  ◌≡◌, ◌≢◌, inl, inr, refl, sym, ap, ◌∙◌, Bool, true, Option, none, some, List, [], ◌∷◌, ◌++◌,
  string_eq, nat_eq, arith, All, Bool-cases,
}
use geas.Lzint
use geas.Lzint.{Value, nat_bytes}
use geas.Asm.Program.{
  Instruction, Elem, inst, section_start, section_end, instructions, is_bytes, is_push,
}
use geas.Asm.Arguments.{
  AsmError, Evaluator, Evaluated, value, unassigned_label, failure, Assignment, assigned, refused,
  assign_push_arg, unevaluated_bytes, pre_evaluate_args, pre_arg, pre_evaluated_bytes,
  pre_evaluated_push, pre_bytes, pre_stored, initial_size,
}
use geas.Asm.Backend.Pairs.{Pairs}
use geas.Asm.Backend.Sources.{IsQuietRaw}

module _ {E : Type 0} (eval : Evaluator E) (push0 : Bool) where
  pre_bytes_quiet :
      (i : Instruction E) (r : Lzint.BytesResult)
      → ((pre_bytes i r).0.arg_no_labels ≡ i.arg_no_labels)
        × All (λ e. e ≢ unevaluated_bytes) (pre_bytes i r).1
  unfolding pre_bytes
  pre_bytes_quiet i (Lzint.ok bs) = (refl, tt)
  pre_bytes_quiet i (Lzint.err x) = (refl, ((λ e. cc e), tt))

  -- A #bytes instruction needs no evaluation in the loop.
  pre_evaluated_bytes_quiet :
      (i : Instruction E) (r : Evaluated)
      → ((pre_evaluated_bytes (record i { arg_no_labels = true }) r).0.arg_no_labels ≡ true)
        × All
            (λ e. e ≢ unevaluated_bytes)
            (pre_evaluated_bytes (record i { arg_no_labels = true }) r).1
  unfolding pre_evaluated_bytes
  pre_evaluated_bytes_quiet i (value v) =
      pre_bytes_quiet (record i { arg_no_labels = true }) (Lzint.bytes v)
  pre_evaluated_bytes_quiet i unassigned_label = (refl, ((λ e. cc e), tt))
  pre_evaluated_bytes_quiet i (failure x) = (refl, ((λ e. cc e), tt))

  stored_calm :
      (i : Instruction E) (v : Value) (a : Assignment E)
      → assign_push_arg push0 i v.int true ≡ a
      → All (λ e. e ≢ unevaluated_bytes) (pre_stored i a).1 × ((pre_stored i a).0.op ≡ i.op)
  unfolding pre_stored assign_push_arg
  stored_calm i v (assigned j) h = (tt, ground arith)
  stored_calm i v (refused x) h = (((λ e. ground arith), tt), refl)

  pre_evaluated_push_calm :
      (i : Instruction E) (r : Evaluated)
      → All (λ e. e ≢ unevaluated_bytes) (pre_evaluated_push push0 i r).1
        × ((pre_evaluated_push push0 i r).0.op ≡ i.op)
  unfolding pre_evaluated_push
  pre_evaluated_push_calm i (value v) = stored_calm (record i { arg_no_labels = true }) v _ refl
  pre_evaluated_push_calm i unassigned_label = (tt, refl)
  pre_evaluated_push_calm i (failure x) = (((λ e. cc e), tt), refl)

  pre_arg_calm :
      (i : Instruction E) (a : Option E)
      → IsQuietRaw push0 eval i (pre_arg push0 eval i a).0
        × All (λ e. e ≢ unevaluated_bytes) (pre_arg push0 eval i a).1
  unfolding pre_arg
  pre_arg_calm i none = elim (Bool-cases (is_bytes i.op)) [
    | inl b ↦ rw b ((λ q. refl), tt)
    | inr b ↦ rw b ((λ q. absurd (cc (b, q))), tt)
  ]
  pre_arg_calm i (some e) = elim (Bool-cases (is_bytes i.op)) [
    | inl b ↦
        let (quiet, calm) = pre_evaluated_bytes_quiet i (eval none e) in rw b ((λ q. quiet), calm)
    | inr b ↦ elim (Bool-cases (is_push i.op)) [
      | inl p ↦
          let (calm, same) =
            pre_evaluated_push_calm (record i { data_size = initial_size i.explicit_size })
              (eval none e) in
          rw (b, p) ((λ q. absurd (cc (b, sym (ap is_bytes same) ∙ q))), calm)
      | inr p ↦ rw (b, p) ((λ q. absurd (cc (b, q))), tt)
    ]
  ]

  All-append :
      (xs ys : List AsmError)
      → All (λ e. e ≢ unevaluated_bytes) xs
      → All (λ e. e ≢ unevaluated_bytes) ys
      → All (λ e. e ≢ unevaluated_bytes) (xs ++ ys)
  All-append [] ys all more = more
  All-append (x ∷ xs) ys all more = (all.0, All-append xs ys all.1 more)

  pub pre_evaluate_args_calm :
      (elems : List (Elem E))
      → Pairs (IsQuietRaw push0 eval) (instructions elems) (pre_evaluate_args push0 eval elems).0
        × All (λ e. e ≢ unevaluated_bytes) (pre_evaluate_args push0 eval elems).1
  unfolding pre_evaluate_args instructions
  pre_evaluate_args_calm [] = (refl, tt)
  pre_evaluate_args_calm (section_start s o ∷ elems) = pre_evaluate_args_calm elems
  pre_evaluate_args_calm (section_end s o ∷ elems) = pre_evaluate_args_calm elems
  pre_evaluate_args_calm (inst i ∷ elems) =
      let (quiet, calm) = pre_arg_calm i i.arg in
      let (rest, more) = pre_evaluate_args_calm elems in
      (
        (i, instructions elems, refl, quiet, rest),
        All-append (pre_arg push0 eval i i.arg).1 _ calm more,
      )
