-- ===== src/Asm/Expand/Labels.antt =====
-- Label statements, and what they leave for the next instruction.
use geas.Prelude.{
  ℕ, ◌+◌, ◌<◌, ◌≡◌, refl, inl, inr, Bool, true, false, Option, none, some, List, [], ◌∷◌, ◌++◌,
  nat_eq, arith, Bool-cases, if◌then◌else◌,
}
use geas.Ast.{Document, LabelDef, is_global}
use geas.Evm.Defs.{InstructionSet}
use geas.Asm.Program.{Instruction, instructions}
use geas.Asm.Output.Encoding.{plain}
use geas.Asm.Backend.PreEvaluated.{IsExpanded, no_arg}
use geas.Asm.Evaluator.Builtins.{member}
use geas.Asm.Expand.Defs.{
  Input, Term, PendingLabel, Prog, Outcome, finished, panicked, out_of_fuel, add_label,
  append_label, new_label, new_instruction, add_instruction,
}
use geas.Asm.Expand.{label_at, jumpdest, expand_label, after}
use geas.Asm.Expand.Opcode.Usable.{IsUsable, IsWf-MayLand}
use geas.Asm.Expand.Invariant.{
  Points, LabelInv, IsDotted, MayLand, WfWith, IsWf, All-append, All-weaken, Same, Same-refl, Ends,
  if-Ends, add_instruction-IsWf,
}

member_kept : (m n : ℕ) (xs : List ℕ) → member m xs ≡ true → member m (xs ++ n ∷ []) ≡ true
unfolding member
member_kept m n [] h = cc
member_kept m n (x ∷ xs) h = ground (arith, member_kept m n xs)

member_fresh :
    (m n : ℕ) (xs : List ℕ) → member m xs ≡ false → m < n → member m (xs ++ n ∷ []) ≡ false
unfolding member
member_fresh m n [] h lt = ground arith
member_fresh m n (x ∷ xs) h lt = ground (arith, member_fresh m n xs)

member_last : (n : ℕ) (xs : List ℕ) → member n (xs ++ n ∷ []) ≡ true
unfolding member
member_last n [] = ground arith
member_last n (x ∷ xs) = ground (arith, member_last n xs)

module _ (Waits : Bool → Type 0) (insts : List (Instruction Term)) (current : List ℕ)
    (fresh : ℕ) where
  Points-later :
      (number : ℕ) (dotted : Bool) (o : Option ℕ)
      → number < fresh
      → Points Waits insts current number dotted o
      → Points Waits insts (current ++ fresh ∷ []) number dotted o
  Points-later number dotted none lt h = (member_kept number fresh current h.0, h.1)
  Points-later number dotted (some n) lt h = (member_fresh number fresh current h.0 lt, h.1)

  LabelInv-later :
      (l : PendingLabel)
      → LabelInv Waits insts current fresh l
      → LabelInv Waits insts (current ++ fresh ∷ []) (fresh + 1) l
  LabelInv-later l h = (omega arith, Points-later l.number l.def.dotted l.instr h.0 h.1)

-- One more label, of a kind that may wait.
append_label-WfWith :
    (Waits : Bool → Type 0) (is : InstructionSet) (def : LabelDef) (doc : Document) (p : Prog)
    → Waits def.dotted
    → WfWith Waits is p
    → WfWith Waits is (append_label (new_label def doc p.fresh) p)
append_label-WfWith Waits is def doc p may (nested, expanded, labels) = (
  nested,
  expanded,
  All-append _ p.labels (new_label def doc p.fresh ∷ [])
      (All-weaken _ _ p.labels
        (LabelInv-later Waits (instructions p.elems) p.current_labels p.fresh) labels)
      ((omega arith, (member_last p.fresh p.current_labels, may)), tt),
)

module _ (inp : Input) (is : InstructionSet) (u : IsUsable is) where
  -- The label is refused, or waits.
  abbrev Added : Bool → Prog → Outcome → Type 0
  Added dotted p (finished (some e) q) = Same p q × IsWf is q
  Added dotted p (finished none q) =
      Same p q × (dotted ≡ true → IsWf is q) × (WfWith (MayLand "JUMPDEST") is q)
  Added dotted p panicked = ⊥
  Added dotted p out_of_fuel = ⊥

  appended :
      (def : LabelDef) (doc : Document) (p : Prog)
      → IsWf is p
      → Added def.dotted p (finished none (append_label (new_label def doc p.fresh) p))
  appended def doc p wf = (
    Same-refl p,
    λ d. append_label-WfWith IsDotted is def doc p d wf,
    append_label-WfWith (MayLand "JUMPDEST") is def doc p (λ e. refl)
        (IsWf-MayLand is "JUMPDEST" p wf),
  )

  add_label-Added :
      (def : LabelDef) (doc : Document) (p : Prog)
      → IsWf is p
      → (is_global inp.is_upper def.ident ≡ true → p.global_labels def.ident ≡ none)
      → Added def.dotted p (add_label inp.is_upper def doc p)
  unfolding add_label
  add_label-Added def doc p wf unique = elim (Bool-cases (is_global inp.is_upper def.ident)) [
    | inl e ↦ rw (e, unique e) (appended def doc p wf)
    | inr e ↦ rw e (appended def doc p wf)
  ]

  label_at-Added :
      (def : LabelDef) (doc : Document) (o : Option PendingLabel) (p : Prog)
      → IsWf is p
      → (o ≡ none → is_global inp.is_upper def.ident ≡ true → p.global_labels def.ident ≡ none)
      → Added def.dotted p (label_at inp def doc o p)
  unfolding label_at
  label_at-Added def doc (some first) p wf unique = (Same-refl p, wf)
  label_at-Added def doc none p wf unique = add_label-Added def doc p wf (unique refl)

  jumpdest_made : (p : Prog) → IsExpanded is (new_instruction p "JUMPDEST" none none none)
  jumpdest_made p =
      no_arg _ refl (inl refl) (plain u.jumpdest refl refl refl u.has_jumpdest refl refl)

  jumpdest_added :
      (p q : Prog)
      → Same p q
      → WfWith (MayLand "JUMPDEST") is q
      → Ends is p (finished none (add_instruction (new_instruction q "JUMPDEST" none none none) q))
  unfolding add_instruction
  jumpdest_added p q same lands = (
    same,
    add_instruction-IsWf is (new_instruction q "JUMPDEST" none none none) q lands (jumpdest_made q)
        tt,
  )

  jumpdest-Ends :
      (def : LabelDef) (p q : Prog)
      → Same p q
      → (def.dotted ≡ true → IsWf is q)
      → WfWith (MayLand "JUMPDEST") is q
      → Ends is p (jumpdest inp def q)
  unfolding jumpdest
  jumpdest-Ends def p q same dotted lands =
      if-Ends is p def.dotted _ _ (λ e. (same, dotted e)) λ e. jumpdest_added p q same lands

  after_added :
      (def : LabelDef) (p : Prog) (o : Outcome)
      → Added def.dotted p o
      → Ends is p (after o (jumpdest inp def))
  unfolding after
  after_added def p (finished (some e) q) h = h
  after_added def p (finished none q) h = jumpdest-Ends def p q h.0 h.1 h.2
  after_added def p panicked h = h
  after_added def p out_of_fuel h = h

  not_there :
      (def : LabelDef) (p : Prog)
      → (if is_global inp.is_upper def.ident then p.global_labels def.ident else none) ≡ none
      → is_global inp.is_upper def.ident ≡ true
      → p.global_labels def.ident ≡ none
  not_there def p e g = rw g at e

  pub expand_label-Ends :
      (def : LabelDef) (doc : Document) (p : Prog)
      → IsWf is p
      → Ends is p (expand_label inp def doc p)
  unfolding expand_label
  expand_label-Ends def doc p wf =
      after_added def p _ (label_at-Added def doc _ p wf (not_there def p))
