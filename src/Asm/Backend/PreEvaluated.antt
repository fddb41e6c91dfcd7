-- ===== src/Asm/Backend/PreEvaluated.antt =====
-- What preEvaluateArgs leaves of an expanded program.
use geas.Prelude.{
  ℕ, ◌-◌, ◌≤◌, ◌<◌, ◌≡◌, ◌⊎◌, inl, inr, refl, sym, ap, ◌∙◌, Bool, true, false, Option, none, some,
  List, [], ◌∷◌, ◌++◌, ◌==◌, string_eq, nat_eq, length, arith, All, Option-cases,
}
use mathlib.Core.Path.{subst}
use geas.Evm.Defs.{InstructionSet}
use geas.Evm.InstructionSet.{supports_push0}
use geas.Asm.Program.{
  Instruction, Elem, inst, section_start, section_end, instructions, is_bytes, is_push,
}
use geas.Asm.Arguments.{
  AsmError, Evaluator, Evaluated, value, unassigned_label, failure, Assignment, assigned, refused,
  pre_evaluate_args, pre_arg, pre_evaluated_bytes, pre_evaluated_push, pre_bytes, pre_stored,
  initial_size,
}
use geas.Asm.Output.{resolve_push}
use geas.Asm.Output.Encoding.{Encodes, raw, push}
use geas.Lzint
use geas.Lzint.{nat_bytes}
use geas.Asm.Backend.Prepared.{HasOpcodes, Prepared, ready, pending, assigned_facts}

pub append_nil {ℓ} : {A : Type ℓ} (xs ys : List A) → xs ++ ys ≡ [] → (xs ≡ []) × (ys ≡ [])
append_nil [] ys h = (refl, h)
append_nil (x ∷ xs) ys h = absurd (cc h)

module _ {E : Type 0} (is : InstructionSet) where
  -- A PUSH with an argument, as the expansion leaves it.
  pub record IsPushArg (i : Instruction E) : Type 0 where
    pub term : E
    pub has_arg : i.arg ≡ some term
    pub not_raw : is_bytes i.op ≡ false
    pub is_push_op : is_push i.op ≡ true
    pub not_empty : (i.op == "") ≡ false
    pub not_evaluated : i.arg_no_labels ≡ false
    pub sizes : (n : ℕ) → i.explicit_size ≡ some n → (0 < n) × (n ≤ 32)
    pub opcodes : HasOpcodes is i.op

  -- The instructions that the expansion makes.
  pub data IsExpanded (i : Instruction E) : Type 0 where
    bytes_arg : (e : E) → i.arg ≡ some e → is_bytes i.op ≡ true → IsExpanded i
    push_arg : IsPushArg i → IsExpanded i
    no_arg :
        (bs : List ℕ)
        → is_bytes i.op ≡ false
        → (is_push i.op ≡ false) ⊎ (i.arg ≡ none)
        → Encodes is i bs
        → IsExpanded i

  initial_size-bounds :
      (i : Instruction E)
      → ((n : ℕ) → i.explicit_size ≡ some n → (0 < n) × (n ≤ 32))
      → (0 < initial_size i.explicit_size) × (initial_size i.explicit_size ≤ 32)
  unfolding initial_size
  initial_size-bounds i sizes = elim (Option-cases i.explicit_size) [
    | inl e ↦ rw e (ground arith, ground arith)
    | inr (n, e) ↦ rw e (sizes n e)
  ]

  bytes_facts :
      (i j : Instruction E) (r : Lzint.BytesResult)
      → pre_bytes i r ≡ (j, [])
      → (j.op ≡ i.op) × (j.arg_no_labels ≡ i.arg_no_labels) × (j.data_size ≡ length j.data_bytes)
  unfolding pre_bytes
  bytes_facts i j (Lzint.ok b) h = (ground arith, ground arith, ground arith)
  bytes_facts i j (Lzint.err x) h = absurd (ground arith)

  bytes-Prepared :
      (i j : Instruction E) (r : Evaluated)
      → is_bytes i.op ≡ true
      → i.arg_no_labels ≡ true
      → pre_evaluated_bytes i r ≡ (j, [])
      → Prepared is j
  unfolding pre_evaluated_bytes
  bytes-Prepared i j (value v) raw_op quiet h =
      let (same_op, same_labels, size) = bytes_facts i j (Lzint.bytes v) h in
      ready j.data_bytes (inl (same_labels ∙ quiet)) (raw (ap is_bytes same_op ∙ raw_op) size)
  bytes-Prepared i j unassigned_label raw_op quiet h = absurd (ground arith)
  bytes-Prepared i j (failure x) raw_op quiet h = absurd (ground arith)

  pub stored-assigned :
      (i j : Instruction E) (a : Assignment E) → pre_stored i a ≡ (j, []) → a ≡ assigned j
  unfolding pre_stored
  stored-assigned i j (assigned k) h = ap assigned (ap (λ p. p.0) h)
  stored-assigned i j (refused x) h = absurd (ground arith)

  push-Prepared :
      (i j : Instruction E) (r : Evaluated)
      → IsPushArg i
      → 0 < i.data_size
      → i.data_size ≤ 32
      → pre_evaluated_push (supports_push0 is) i r ≡ (j, [])
      → Prepared is j
  unfolding pre_evaluated_push
  push-Prepared i j (value v) p positive most h =
      let i' = record i { arg_no_labels = true } in
      let (same_op, same_labels, most', fits, some_byte) =
        assigned_facts is (supports_push0 is) i' j v.int positive most (stored-assigned i' j _ h) in
      let (o, found) = p.opcodes j.data_size most' some_byte in
      ready _ (inl same_labels) (
        push o (j.data_size - length j.data_bytes) (ap is_bytes same_op ∙ p.not_raw)
          (ap is_push same_op ∙ p.is_push_op) (ap (λ name. name == "") same_op ∙ p.not_empty)
          (ap (λ name. resolve_push is name j.data_size) same_op ∙ found) most' (omega arith))
  push-Prepared i j unassigned_label p positive most h = subst (Prepared is) (ap (λ x. x.0) h) (
      pending p.not_evaluated (record {
        term = p.term;
        has_arg = p.has_arg;
        not_raw = p.not_raw;
        is_push_op = p.is_push_op;
        not_empty = p.not_empty;
        some_byte = positive;
        at_most = most;
        opcodes = p.opcodes;
      }))
  push-Prepared i j (failure x) p positive most h = absurd (ground arith)

  sized_push :
      (i : Instruction E)
      → IsPushArg i
      → IsPushArg (record i { data_size = initial_size i.explicit_size })
  sized_push i p = record {
    term = p.term;
    has_arg = p.has_arg;
    not_raw = p.not_raw;
    is_push_op = p.is_push_op;
    not_empty = p.not_empty;
    not_evaluated = p.not_evaluated;
    sizes = p.sizes;
    opcodes = p.opcodes;
  }

  pub pre_arg_quiet :
      (push0 : Bool) (eval : Evaluator E) (i : Instruction E) (a : Option E)
      → i.arg ≡ a
      → is_bytes i.op ≡ false
      → (is_push i.op ≡ false) ⊎ (i.arg ≡ none)
      → pre_arg push0 eval i a ≡ (i, [])
  unfolding pre_arg
  pre_arg_quiet push0 eval i none same not_raw quiet = rw not_raw refl
  pre_arg_quiet push0 eval i (some e) same not_raw (inl no_push) = rw (not_raw, no_push) refl
  pre_arg_quiet push0 eval i (some e) same not_raw (inr gone) = absurd (cc (same, gone))

  pre_arg-Prepared :
      (eval : Evaluator E) (i j : Instruction E)
      → IsExpanded i
      → pre_arg (supports_push0 is) eval i i.arg ≡ (j, [])
      → Prepared is j
  unfolding pre_arg
  pre_arg-Prepared eval i j (bytes_arg e has raw_op) h =
      bytes-Prepared (record i { arg_no_labels = true }) j (eval none e) raw_op refl
        (rw raw_op at (subst (λ a. pre_arg (supports_push0 is) eval i a ≡ (j, [])) has h))
  pre_arg-Prepared eval i j (push_arg p) h =
      let (positive, most) = initial_size-bounds i p.sizes in
      push-Prepared (record i { data_size = initial_size i.explicit_size }) j (eval none p.term)
        (sized_push i p) positive most
        (rw (p.not_raw, p.is_push_op) at
          (subst (λ a. pre_arg (supports_push0 is) eval i a ≡ (j, [])) p.has_arg h))
  pre_arg-Prepared eval i j (no_arg bs not_raw quiet enc) h =
      let stays = pre_arg_quiet (supports_push0 is) eval i i.arg refl not_raw quiet in
      subst (Prepared is) (ap (λ x. x.0) (sym stays ∙ h)) (ready bs (inr (not_raw, quiet)) enc)

  -- No error of pre-evaluation: every instruction of the result is prepared.
  pub pre_evaluate_args-Prepared :
      (eval : Evaluator E) (elems : List (Elem E))
      → All IsExpanded (instructions elems)
      → (pre_evaluate_args (supports_push0 is) eval elems).1 ≡ []
      → All (Prepared is) (instructions (pre_evaluate_args (supports_push0 is) eval elems).0)
  unfolding pre_evaluate_args instructions
  pre_evaluate_args-Prepared eval [] all h = tt
  pre_evaluate_args-Prepared eval (section_start s o ∷ elems) all h =
      pre_evaluate_args-Prepared eval elems all h
  pre_evaluate_args-Prepared eval (section_end s o ∷ elems) all h =
      pre_evaluate_args-Prepared eval elems all h
  pre_evaluate_args-Prepared eval (inst i ∷ elems) all h =
      let first = pre_arg (supports_push0 is) eval i i.arg in
      let (none_here, none_later) = append_nil first.1 _ h in
      (
        pre_arg-Prepared eval i first.0 all.0
            (ap (λ (es : List AsmError). (first.0, es)) none_here),
        pre_evaluate_args-Prepared eval elems all.1 none_later,
      )
