-- ===== src/Asm/Layout/Fixpoint.antt =====
-- When the loop of compile ends without an error, sizes, PCs and arguments agree.
use geas.Prelude.{
  ℕ, zero, suc, ◌*◌, ◌≤◌, ◌≡◌, refl, ap, ◌∙◌, sym, Bool, true, false, none, some, List, [], ◌∷◌,
  length, arith, All,
}
use mathlib.Core.Path.{subst, ap₂}
use geas.Lzint.{Value, nat_bytes}
use geas.Prelude.Int.{magnitude, is_negative}
use geas.Asm.Program.{
  Instruction, Elem, inst, section_start, section_end, compute_pc, instructions, encoded_size,
  is_push,
}
use geas.Asm.Program.Pc.{IsPlaced, compute_pc-IsPlaced}
use geas.Asm.Arguments.{
  Evaluator, Evaluated, value, unassigned_label, failure, Assignment, assigned, refused, Round,
  all_assigned, failed, evaluate_args, evaluate_arg, assign_push_arg, variable_push_overflow,
  after_elem, with_assignment,
}
use geas.Asm.Layout.{LaidOut, done, next_round, round, layout_loop, layout, pcs_of}

module _ {E : Type 0} where
  -- The argument of a PUSH has its value at the given PCs, which is stored and fits.
  pub record Stored (eval : Evaluator E) (pcs : List ℕ) (i : Instruction E) (e : E) : Type 0 where
    pub result : Value
    pub evaluates : eval (some pcs) e ≡ value result
    pub not_negative : is_negative result.int ≡ false
    pub stored : i.data_bytes ≡ nat_bytes (magnitude result.int)
    pub fits : length i.data_bytes ≤ i.data_size

  abbrev pub IsSettled : Evaluator E → List ℕ → Instruction E → Type 0
  IsSettled eval pcs i =
      (e : E) → i.arg_no_labels ≡ false → is_push i.op ≡ true → i.arg ≡ some e → Stored eval pcs i e

  -- Only the data of an instruction changes in a round.
  pub record IsUpdate (i j : Instruction E) : Type 0 where
    pub same_op : j.op ≡ i.op
    pub same_size : j.data_size ≡ i.data_size
    pub same_pc : j.pc ≡ i.pc
    pub same_labels : j.arg_no_labels ≡ i.arg_no_labels
    pub same_arg : j.arg ≡ i.arg

  pub evaluate_arg-IsUpdate :
      (push0 : Bool) (eval : Evaluator E) (pcs : List ℕ) (i j : Instruction E)
      → evaluate_arg push0 eval pcs i ≡ assigned j
      → IsUpdate i j
  unfolding evaluate_arg assign_push_arg
  evaluate_arg-IsUpdate push0 eval pcs i j h = ground arith

  -- The value that an assigned argument has been computed from.
  assigned-Stored :
      (push0 : Bool) (eval : Evaluator E) (pcs : List ℕ) (i j : Instruction E) (e : E)
      (r : Evaluated)
      → eval (some pcs) e ≡ r
      → i.arg_no_labels ≡ false
      → is_push i.op ≡ true
      → i.arg ≡ some e
      → evaluate_arg push0 eval pcs i ≡ assigned j
      → Stored eval pcs j e
  unfolding evaluate_arg assign_push_arg
  assigned-Stored push0 eval pcs i j e (value v) q lab push arg h = record {
    result = v;
    evaluates = q;
    not_negative = ground arith;
    stored = ground arith;
    fits = ground arith;
  }
  assigned-Stored push0 eval pcs i j e unassigned_label q lab push arg h = absurd (ground arith)
  assigned-Stored push0 eval pcs i j e (failure x) q lab push arg h = absurd (ground arith)

  evaluate_arg-IsSettled :
      (push0 : Bool) (eval : Evaluator E) (pcs : List ℕ) (i j : Instruction E)
      → evaluate_arg push0 eval pcs i ≡ assigned j
      → IsSettled eval pcs j
  evaluate_arg-IsSettled push0 eval pcs i j h e lab push arg =
      let u = evaluate_arg-IsUpdate push0 eval pcs i j h in
      assigned-Stored push0 eval pcs i j e (eval (some pcs) e) refl (sym u.same_labels ∙ lab)
        (ap is_push (sym u.same_op) ∙ push) (sym u.same_arg ∙ arg) h

  -- What a round that assigns all arguments has done.
  record Settles (eval : Evaluator E) (pcs : List ℕ) (before after : List (Elem E)) : Type 0 where
    placed : (pc : ℕ) → IsPlaced pc before → IsPlaced pc after
    same_pcs : pcs_of after ≡ pcs_of before
    settled : All (IsSettled eval pcs) (instructions after)

  abbrev RoundSettles : Evaluator E → List ℕ → List (Elem E) → Round E → Type 0
  RoundSettles eval pcs before (all_assigned after) = Settles eval pcs before after
  RoundSettles eval pcs before (failed _ _ _ _) = Unit

  encoded_size-IsUpdate : (i j : Instruction E) → IsUpdate i j → encoded_size j ≡ encoded_size i
  unfolding encoded_size
  encoded_size-IsUpdate i j u = rw (u.same_op, u.same_size)

  section_start-Settles :
      (eval : Evaluator E) (pcs : List ℕ) (s o : ℕ) (before : List (Elem E)) (r : Round E)
      → RoundSettles eval pcs before r
      → RoundSettles eval pcs (section_start s o ∷ before) (after_elem (section_start s o) r)
  unfolding instructions
  section_start-Settles eval pcs s o before (all_assigned after) h = record {
    placed = λ pc p. (p.0, h.placed pc p.1);
    same_pcs = h.same_pcs;
    settled = h.settled;
  }
  section_start-Settles eval pcs s o before (failed _ _ _ _) h = tt

  section_end-Settles :
      (eval : Evaluator E) (pcs : List ℕ) (s o : ℕ) (before : List (Elem E)) (r : Round E)
      → RoundSettles eval pcs before r
      → RoundSettles eval pcs (section_end s o ∷ before) (after_elem (section_end s o) r)
  unfolding instructions
  section_end-Settles eval pcs s o before (all_assigned after) h = record {
    placed = λ pc p. (p.0, h.placed pc p.1);
    same_pcs = h.same_pcs;
    settled = h.settled;
  }
  section_end-Settles eval pcs s o before (failed _ _ _ _) h = tt

  inst-Settles :
      (push0 : Bool) (eval : Evaluator E) (pcs : List ℕ) (i : Instruction E)
      (before : List (Elem E)) (a : Assignment E) (r : Round E)
      → evaluate_arg push0 eval pcs i ≡ a
      → RoundSettles eval pcs before r
      → RoundSettles eval pcs (inst i ∷ before) (with_assignment i before a r)
  unfolding instructions
  inst-Settles push0 eval pcs i before (assigned j) (all_assigned after) e h =
      let u = evaluate_arg-IsUpdate push0 eval pcs i j e in
      record {
        placed = λ pc p. (u.same_pc ∙ p.0, rw (encoded_size-IsUpdate i j u) (h.placed _ p.1));
        same_pcs = ap₂ ◌∷◌ u.same_pc h.same_pcs;
        settled = (evaluate_arg-IsSettled push0 eval pcs i j e, h.settled);
      }
  inst-Settles push0 eval pcs i before (assigned j) (failed _ _ _ _) e h = tt
  inst-Settles push0 eval pcs i before (refused x) r e h = tt

  evaluate_args-Settles :
      (push0 : Bool) (eval : Evaluator E) (pcs : List ℕ) (before : List (Elem E))
      → RoundSettles eval pcs before (evaluate_args push0 eval pcs before)
  unfolding evaluate_args
  evaluate_args-Settles push0 eval pcs [] = record {
    placed = λ pc p. p;
    same_pcs = refl;
    settled = unfold instructions in tt;
  }
  evaluate_args-Settles push0 eval pcs (section_start s o ∷ before) =
      section_start-Settles eval pcs s o before _ (evaluate_args-Settles push0 eval pcs before)
  evaluate_args-Settles push0 eval pcs (section_end s o ∷ before) =
      section_end-Settles eval pcs s o before _ (evaluate_args-Settles push0 eval pcs before)
  evaluate_args-Settles push0 eval pcs (inst i ∷ before) =
      inst-Settles push0 eval pcs i before _ _ refl (evaluate_args-Settles push0 eval pcs before)

  -- The program that the loop ends with: the PCs are those that the sizes give, and each PUSH whose
  -- argument was left to the loop holds the bytes of the argument's value at these PCs, which fit.
  abbrev pub IsFixpoint : Evaluator E → List (Elem E) → Type 0
  IsFixpoint eval elems =
      IsPlaced 0 elems × All (IsSettled eval (pcs_of elems)) (instructions elems)

  abbrev EndsFixed : Evaluator E → LaidOut E → Type 0
  EndsFixed eval (done elems none) = IsFixpoint eval elems
  EndsFixed eval _ = Unit

  next_round-EndsFixed :
      (eval : Evaluator E) (before : List (Elem E)) (r : Round E)
      (again : List (Elem E) → LaidOut E)
      → IsPlaced 0 before
      → RoundSettles eval (pcs_of before) before r
      → ((l : List (Elem E)) → EndsFixed eval (again l))
      → EndsFixed eval (next_round r again)
  next_round-EndsFixed eval before (all_assigned after) again p h rest =
      (h.placed 0 p, rw h.same_pcs h.settled)
  next_round-EndsFixed eval before (failed b i a variable_push_overflow) again p h rest = rest _
  next_round-EndsFixed eval before (failed b i a _) again p h rest = tt

  layout_loop-EndsFixed :
      (push0 : Bool) (eval : Evaluator E) (fuel : ℕ) (elems : List (Elem E))
      → EndsFixed eval (layout_loop push0 eval fuel elems)
  unfolding layout_loop round
  layout_loop-EndsFixed push0 eval zero elems = tt
  layout_loop-EndsFixed push0 eval (suc fuel) elems =
      next_round-EndsFixed eval (compute_pc 0 elems) _ _ (compute_pc-IsPlaced 0 elems)
        (evaluate_args-Settles push0 eval (pcs_of (compute_pc 0 elems)) (compute_pc 0 elems))
        (layout_loop-EndsFixed push0 eval fuel)

  -- When the layout loop of compile ends without an error, the PCs are those that the instruction
  -- sizes give, and every PUSH whose argument was left to the loop holds the bytes of the
  -- argument's value at these PCs, which is not negative and fits the size.
  pub layout-IsFixpoint :
      (push0 : Bool) (eval : Evaluator E) (elems after : List (Elem E))
      → layout push0 eval elems ≡ done after none
      → IsFixpoint eval after
  unfolding layout
  layout-IsFixpoint push0 eval elems after h =
      subst (EndsFixed eval) h
        (layout_loop-EndsFixed push0 eval (suc (32 * length (instructions elems))) elems)
