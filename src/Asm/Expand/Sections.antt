-- ===== src/Asm/Expand/Sections.antt =====
-- Sections are opened and closed again.
use geas.Prelude.{ℕ, ◌+◌, ◌≡◌, ◌∙◌, refl, sym, ap, Bool, Option, List, [], ◌∷◌, ◌++◌, All, arith}
use mathlib.Core.Path.{subst}
use geas.Ast.{Document}
use geas.Evm.Defs.{InstructionSet}
use geas.Asm.Program.{Instruction, Elem, section_start, section_end, instructions}
use geas.Asm.Backend.PreEvaluated.{IsExpanded}
use geas.Asm.Evaluator.Defs.{MacroArgs}
use geas.Asm.Expand.Defs.{
  ExpandError, Term, PendingLabel, Frame, Prog, push_section, pop_section, next_number,
}
use geas.Asm.Expand.Invariant.{
  IsNested, IsNested-append, open_sections, LabelInv, IsDotted, IsWf, instructions-append,
  All-weaken, Ends,
}

append_nil {ℓ} : {A : Type ℓ} (xs : List A) → xs ++ [] ≡ xs
append_nil [] = refl
append_nil (x ∷ xs) = ap (◌∷◌ x) (append_nil xs)

abbrev start_of : ℕ → List (Elem Term)
start_of n = section_start n 0 ∷ []

abbrev end_of : ℕ → List (Elem Term)
end_of n = section_end n 0 ∷ []

pub instructions-start :
    (xs : List (Elem Term)) (n : ℕ) → instructions (xs ++ start_of n) ≡ instructions xs
unfolding instructions
instructions-start xs n = instructions-append xs (start_of n) ∙ append_nil (instructions xs)

pub instructions-end :
    (xs : List (Elem Term)) (n : ℕ) → instructions (xs ++ end_of n) ≡ instructions xs
unfolding instructions
instructions-end xs n = instructions-append xs (end_of n) ∙ append_nil (instructions xs)

LabelInv-fresh :
    (Waits : Bool → Type 0) (insts : List (Instruction Term)) (current : List ℕ) (fresh : ℕ)
    (l : PendingLabel)
    → LabelInv Waits insts current fresh l
    → LabelInv Waits insts current (fresh + 1) l
LabelInv-fresh Waits insts current fresh l h = (omega arith, h.1)

module _ (is : InstructionSet) where
  pub next_number-IsWf : (p : Prog) → IsWf is p → IsWf is (next_number p)
  next_number-IsWf p (nested, expanded, labels) = (
    nested,
    expanded,
    All-weaken _ _ p.labels
        (LabelInv-fresh IsDotted (instructions p.elems) p.current_labels p.fresh) labels,
  )

  pub push_section-IsWf :
      (doc : Document) (args : MacroArgs) (p : Prog) → IsWf is p → IsWf is (push_section doc args p)
  unfolding push_section
  push_section-IsWf doc args p (nested, expanded, labels) =
      let same = sym (instructions-start p.elems p.fresh) in
      (
        IsNested-append [] (open_sections p.cur p.parents) (p.fresh ∷ open_sections p.cur p.parents)
            p.elems (start_of p.fresh) nested refl,
        subst (All (IsExpanded is)) same expanded,
        subst (λ insts. All (LabelInv IsDotted insts p.current_labels (p.fresh + 1)) p.labels) same
            (All-weaken _ _ p.labels
              (LabelInv-fresh IsDotted (instructions p.elems) p.current_labels p.fresh) labels),
      )

  pub pop_to_parent :
      (p q : Prog) (e : Option ExpandError) (f : Frame) (fs : List Frame)
      → f ∷ fs ≡ p.cur ∷ p.parents
      → q.parents ≡ f ∷ fs
      → q.macro_stack ≡ p.macro_stack
      → q.toplevel ≡ p.toplevel
      → IsWf is q
      → Ends is p (pop_section e q)
  unfolding pop_section
  pop_to_parent p q e f fs same up stack top (nested, expanded, labels) = rw up (
    (cc same, cc same, stack, top),
    (
      IsNested-append [] (q.cur.number ∷ open_sections f fs) (open_sections f fs) q.elems
          (end_of q.cur.number) (subst (λ r. IsNested [] q.elems (open_sections q.cur r)) up nested)
          (refl, refl),
      subst (All (IsExpanded is)) (sym (instructions-end q.elems q.cur.number)) expanded,
      subst (λ insts. All (LabelInv IsDotted insts q.current_labels q.fresh) q.labels)
          (sym (instructions-end q.elems q.cur.number)) labels,
    ),
  )
