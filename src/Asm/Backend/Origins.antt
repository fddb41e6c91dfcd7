-- ===== src/Asm/Backend/Origins.antt =====
-- preEvaluateArgs: each instruction comes from the one it was made of.
use geas.Prelude.{
  ℕ, ◌≡◌, ◌⊎◌, inl, inr, refl, sym, ap, ◌∙◌, Bool, true, false, Option, none, some, List, [], ◌∷◌,
  string_eq, nat_eq, length, arith, All,
}
use mathlib.Core.Path.{subst}
use geas.Prelude.Int.{is_negative, magnitude}
use geas.Evm.Defs.{InstructionSet}
use geas.Lzint
use geas.Lzint.{Value, nat_bytes}
use geas.Asm.Program.{
  Instruction, Elem, inst, section_start, section_end, instructions, is_bytes, is_push,
}
use geas.Asm.Arguments.{
  AsmError, Evaluator, Evaluated, value, unassigned_label, failure, assigned, assign_push_arg,
  pre_evaluate_args, pre_arg, pre_evaluated_bytes, pre_evaluated_push, pre_bytes, initial_size,
}
use geas.Asm.Backend.Pairs.{Pairs}
use geas.Asm.Backend.Sources.{ComesFrom}
use geas.Asm.Backend.PreEvaluated.{
  IsExpanded, IsPushArg, bytes_arg, push_arg, no_arg, append_nil, stored-assigned, pre_arg_quiet,
}

module _ {E : Type 0} (is : InstructionSet) (eval : Evaluator E) where
  bytes_result :
      (i j : Instruction E) (v : Value) (r : Lzint.BytesResult)
      → Lzint.bytes v ≡ r
      → pre_bytes i r ≡ (j, [])
      → (bs : List ℕ) × (Lzint.bytes v ≡ Lzint.ok bs)
        × (j ≡ record i { data_bytes = bs; data_size = length bs })
  unfolding pre_bytes
  bytes_result i j v (Lzint.ok bs) e h = (bs, e, sym (ap (λ x. x.0) h))
  bytes_result i j v (Lzint.err x) e h = absurd (ground arith)

  bytes-ComesFrom :
      (i j : Instruction E) (e : E) (r : Evaluated)
      → eval none e ≡ r
      → i.arg ≡ some e
      → is_bytes i.op ≡ true
      → pre_evaluated_bytes (record i { arg_no_labels = true }) r ≡ (j, [])
      → ComesFrom eval i j
  unfolding pre_evaluated_bytes
  bytes-ComesFrom i j e (value v) evaluates has raw_op h =
      let i' = record i { arg_no_labels = true } in
      let (bs, made, same) = bytes_result i' j v (Lzint.bytes v) refl h in
      subst (ComesFrom eval i) (sym same) (record {
        same_op = refl;
        same_arg = refl;
        same_pc_label = refl;
        same_explicit = refl;
        raw_quiet = λ b. refl;
        size_given = λ n x a b p s. absurd (cc (raw_op, b));
        bytes_stored = λ x a b. record {
          content = v;
          evaluates = subst (λ y. eval none y ≡ value v) (cc (has, a)) evaluates;
          stored = made;
        };
        number_stored = λ x a b p q. absurd (cc (raw_op, b));
        data_kept = λ b q. absurd (cc (raw_op, b));
      })
  bytes-ComesFrom i j e unassigned_label evaluates has raw_op h = absurd (ground arith)
  bytes-ComesFrom i j e (failure x) evaluates has raw_op h = absurd (ground arith)

  -- What assignPushArg makes of a value in pre-evaluation.
  record IsAssigned (i j : Instruction E) (v : Value) : Type 0 where
    same_op : j.op ≡ i.op
    same_arg : j.arg ≡ i.arg
    same_pc_label : j.pc_label ≡ i.pc_label
    same_explicit : j.explicit_size ≡ i.explicit_size
    same_labels : j.arg_no_labels ≡ i.arg_no_labels
    not_negative : is_negative v.int ≡ false
    stored : j.data_bytes ≡ nat_bytes (magnitude v.int)
    size_given : (n : ℕ) → i.explicit_size ≡ some n → j.data_size ≡ i.data_size

  assign_push_arg-IsAssigned :
      (push0 : Bool) (i j : Instruction E) (v : Value)
      → assign_push_arg push0 i v.int true ≡ assigned j
      → IsAssigned i j v
  unfolding assign_push_arg
  assign_push_arg-IsAssigned push0 i j v h = record {
    same_op = ground arith;
    same_arg = ground arith;
    same_pc_label = ground arith;
    same_explicit = ground arith;
    same_labels = ground arith;
    not_negative = ground arith;
    stored = ground arith;
    size_given = λ n s. ground arith;
  }

  given_size : (o : Option ℕ) (n : ℕ) → o ≡ some n → initial_size o ≡ n
  unfolding initial_size
  given_size o n h = rw h refl

  push-ComesFrom :
      (push0 : Bool) (i j : Instruction E) (r : Evaluated)
      → (p : IsPushArg is i) → eval none p.term ≡ r
      → pre_evaluated_push push0 (record i { data_size = initial_size i.explicit_size }) r ≡ (j, [])
      → ComesFrom eval i j
  unfolding pre_evaluated_push
  push-ComesFrom push0 i j (value v) p evaluates h =
      let i' = record i { data_size = initial_size i.explicit_size; arg_no_labels = true } in
      let a = assign_push_arg-IsAssigned push0 i' j v (stored-assigned is i' j _ h) in
      record {
        same_op = a.same_op;
        same_arg = a.same_arg;
        same_pc_label = a.same_pc_label;
        same_explicit = a.same_explicit;
        raw_quiet = λ b. a.same_labels;
        size_given = λ n x h b q s. a.size_given n s ∙ given_size i.explicit_size n s;
        bytes_stored = λ x h b. absurd (cc (p.not_raw, b));
        number_stored = λ x g b q l. record {
          number = v;
          evaluates = subst (λ y. eval none y ≡ value v) (cc (p.has_arg, g)) evaluates;
          not_negative = a.not_negative;
          stored = a.stored;
        };
        data_kept = λ b q. elim q [
          | inl no_push ↦ absurd (cc (p.is_push_op, no_push))
          | inr gone ↦ absurd (cc (p.has_arg, gone))
        ];
      }
  push-ComesFrom push0 i j unassigned_label p evaluates h =
      subst (ComesFrom eval i) (ap (λ x. x.0) h) (record {
        same_op = refl;
        same_arg = refl;
        same_pc_label = refl;
        same_explicit = refl;
        raw_quiet = λ b. absurd (cc (p.not_raw, b));
        size_given = λ n x a b q s. given_size i.explicit_size n s;
        bytes_stored = λ x a b. absurd (cc (p.not_raw, b));
        number_stored = λ x a b q l. absurd (cc (p.not_evaluated, l));
        data_kept = λ b q. refl;
      })
  push-ComesFrom push0 i j (failure x) p evaluates h = absurd (ground arith)

  quiet-ComesFrom :
      (i : Instruction E)
      → is_bytes i.op ≡ false
      → (is_push i.op ≡ false) ⊎ (i.arg ≡ none)
      → ComesFrom eval i i
  quiet-ComesFrom i not_raw quiet = record {
    same_op = refl;
    same_arg = refl;
    same_pc_label = refl;
    same_explicit = refl;
    raw_quiet = λ b. absurd (cc (not_raw, b));
    size_given = λ n x a b p s. absurd (no_push_arg x a p quiet);
    bytes_stored = λ x a b. absurd (cc (not_raw, b));
    number_stored = λ x a b p l. absurd (no_push_arg x a p quiet);
    data_kept = λ b q. refl;
  }
    where
      no_push_arg :
          (x : E)
          → i.arg ≡ some x
          → is_push i.op ≡ true
          → (is_push i.op ≡ false) ⊎ (i.arg ≡ none)
          → ⊥
      no_push_arg x a p (inl f) = cc (p, f)
      no_push_arg x a p (inr g) = cc (a, g)

  pre_arg-ComesFrom :
      (push0 : Bool) (i j : Instruction E)
      → IsExpanded is i
      → pre_arg push0 eval i i.arg ≡ (j, [])
      → ComesFrom eval i j
  unfolding pre_arg
  pre_arg-ComesFrom push0 i j (bytes_arg e has raw_op) h =
      bytes-ComesFrom i j e (eval none e) refl has raw_op
        (rw raw_op at (subst (λ a. pre_arg push0 eval i a ≡ (j, [])) has h))
  pre_arg-ComesFrom push0 i j (push_arg p) h =
      push-ComesFrom push0 i j (eval none p.term) p refl (
        rw (p.not_raw, p.is_push_op) at (subst (λ a. pre_arg push0 eval i a ≡ (j, [])) p.has_arg h))
  pre_arg-ComesFrom push0 i j (no_arg bs not_raw quiet enc) h =
      let stays = pre_arg_quiet is push0 eval i i.arg refl not_raw quiet in
      subst (ComesFrom eval i) (ap (λ x. x.0) (sym stays ∙ h)) (quiet-ComesFrom i not_raw quiet)

  pub pre_evaluate_args-ComesFrom :
      (push0 : Bool) (elems : List (Elem E))
      → All (IsExpanded is) (instructions elems)
      → (pre_evaluate_args push0 eval elems).1 ≡ []
      → Pairs (ComesFrom eval) (instructions elems) (pre_evaluate_args push0 eval elems).0
  unfolding pre_evaluate_args instructions
  pre_evaluate_args-ComesFrom push0 [] all h = refl
  pre_evaluate_args-ComesFrom push0 (section_start s o ∷ elems) all h =
      pre_evaluate_args-ComesFrom push0 elems all h
  pre_evaluate_args-ComesFrom push0 (section_end s o ∷ elems) all h =
      pre_evaluate_args-ComesFrom push0 elems all h
  pre_evaluate_args-ComesFrom push0 (inst i ∷ elems) all h =
      let first = pre_arg push0 eval i i.arg in
      let (none_here, none_later) = append_nil first.1 _ h in
      (
        i,
        instructions elems,
        refl,
        pre_arg-ComesFrom push0 i first.0 all.0
            (ap (λ (es : List AsmError). (first.0, es)) none_here),
        pre_evaluate_args-ComesFrom push0 elems all.1 none_later,
      )
