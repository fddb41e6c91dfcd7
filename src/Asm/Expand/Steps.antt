-- ===== src/Asm/Expand/Steps.antt =====
-- The statements that expand no other document, and the ends of those that do.
use geas.Prelude.{ℕ, ◌≡◌, refl, inl, false, Option, none, some, List, [], ◌∷◌, String, nat_eq}
use geas.Ast.{Document, Expr, LabelDef, InstructionMacroDef}
use geas.Ast.Statement.{StatementKind, expr_macro_def, instr_macro_def}
use geas.Evm.Defs.{InstructionSet}
use geas.Asm.Output.Encoding.{nothing}
use geas.Asm.Backend.PreEvaluated.{bytes_arg, no_arg}
use geas.Asm.Analysis.{check_duplicate_params}
use geas.Asm.Evaluator.Defs.{MacroArgs}
use geas.Asm.Evaluator.Builtins.{member}
use geas.Asm.Evaluator.Total.{remove_entered}
use geas.Asm.Expand.Defs.{
  Input, Prog, Outcome, finished, panicked, out_of_fuel, error, assemble_deprecated, add_message,
  next_number, push_section, enter_macro, exit_macro, new_instruction,
}
use geas.Asm.Expand.Opcode.Usable.{IsUsable, add-Ends}
use geas.Asm.Expand.{
  after, and_then, leave_section, in_macro, report, check_params, expand_pc_label, expand_assemble,
  add_bytes, expand_bytes,
}
use geas.Asm.Expand.Invariant.{IsWf, Same, Same-refl, Same-trans, Ends}
use geas.Asm.Expand.Sections.{next_number-IsWf, pop_to_parent}
use geas.Asm.Expand.Labels.{expand_label-Ends}

pub Same-Ends :
    (is : InstructionSet) (p q : Prog) (o : Outcome) → Same p q → Ends is q o → Ends is p o
Same-Ends is p q (finished e r) same h = (Same-trans p q r same h.0, h.1)
Same-Ends is p q panicked same h = h
Same-Ends is p q out_of_fuel same h = h

pub after-Ends :
    (is : InstructionSet) (p : Prog) (o : Outcome) (next : Prog → Outcome)
    → Ends is p o
    → ((q : Prog) → Same p q → IsWf is q → Ends is q (next q))
    → Ends is p (after o next)
unfolding after
after-Ends is p (finished none q) next h k = Same-Ends is p q (next q) h.0 (k q h.0 h.1)
after-Ends is p (finished (some e) q) next h k = h
after-Ends is p panicked next h k = h
after-Ends is p out_of_fuel next h k = h

pub and_then-Ends :
    (is : InstructionSet) (p : Prog) (o : Outcome) (next : Prog → Outcome)
    → Ends is p o
    → ((q : Prog) → Same p q → IsWf is q → Ends is q (next q))
    → Ends is p (and_then o next)
unfolding and_then add_message
and_then-Ends is p (finished none q) next h k = Same-Ends is p q (next q) h.0 (k q h.0 h.1)
and_then-Ends is p (finished (some e) q) next h k =
    let r = add_message (error e) q in Same-Ends is p r (next r) h.0 (k r h.0 h.1)
and_then-Ends is p panicked next h k = h
and_then-Ends is p out_of_fuel next h k = h

report-Keeps :
    (is : InstructionSet) (params : List String) (p : Prog)
    → IsWf is p
    → Same p (report params p) × IsWf is (report params p)
unfolding report
report-Keeps is [] p wf = (Same-refl p, wf)
report-Keeps is (param ∷ params) p wf = report-Keeps is params _ wf

pub check_params-Keeps :
    (is : InstructionSet) (kind : StatementKind) (p : Prog)
    → IsWf is p
    → Same p (check_params kind p) × IsWf is (check_params kind p)
unfolding check_params
check_params-Keeps is (expr_macro_def def) p wf =
    report-Keeps is (check_duplicate_params def.params) p wf
check_params-Keeps is (instr_macro_def def) p wf =
    report-Keeps is (check_duplicate_params def.params) p wf
check_params-Keeps is _ p wf = (Same-refl p, wf)

module _ (inp : Input) (is : InstructionSet) where
  pub expand_pc_label-Ends : (pc : ℕ) (p : Prog) → IsWf is p → Ends is p (expand_pc_label inp pc p)
  unfolding expand_pc_label
  expand_pc_label-Ends pc p wf =
      add-Ends is (new_instruction p "" none none (some pc)) p wf
        (no_arg [] refl (inl refl) (nothing refl refl refl refl refl)) tt

  pub expand_assemble-Ends :
      (file : String) (p : Prog) → IsWf is p → Ends is p (expand_assemble inp file p)
  unfolding expand_assemble add_message
  expand_assemble-Ends file p wf =
      let q = next_number (add_message assemble_deprecated p) in
      add-Ends is _ q (next_number-IsWf is p wf) (bytes_arg _ refl refl) refl

  add_bytes-Ends : (e : Expr) (p : Prog) → IsWf is p → Ends is p (add_bytes inp e p)
  unfolding add_bytes
  add_bytes-Ends e p wf =
      add-Ends is (new_instruction p "#bytes" (some e) none none) p wf (bytes_arg _ refl refl) refl

  pub expand_bytes-Ends :
      (u : IsUsable is) (e : Expr) (label : Option LabelDef) (doc : Document) (p : Prog)
      → IsWf is p
      → Ends is p (expand_bytes inp e label doc p)
  unfolding expand_bytes
  expand_bytes-Ends u e none doc p wf = add_bytes-Ends e p wf
  expand_bytes-Ends u e (some l) doc p wf =
      after-Ends is p _ _ (expand_label-Ends inp is u l doc p wf) λ q same w. add_bytes-Ends e q w

  pub leave_section-Ends :
      (doc : Document) (args : MacroArgs) (p : Prog) (o : Outcome)
      → Ends is (push_section doc args p) o
      → Ends is p (leave_section o)
  unfolding leave_section push_section
  leave_section-Ends doc args p (finished e q) ((cur, up, stack, top), wf) =
      pop_to_parent is p q e p.cur p.parents refl up stack top wf
  leave_section-Ends doc args p panicked h = h
  leave_section-Ends doc args p out_of_fuel h = h

  pub in_macro-Ends :
      (def : InstructionMacroDef) (p : Prog) (o : Outcome)
      → member def.id p.macro_stack ≡ false
      → Ends is (enter_macro def p) o
      → Ends is p (in_macro def o)
  unfolding in_macro enter_macro exit_macro
  in_macro-Ends def p (finished e q) out ((cur, up, stack, top), wf) =
      ((cur, up, rw stack (remove_entered def.id p.macro_stack out), top), wf)
  in_macro-Ends def p panicked out h = h
  in_macro-Ends def p out_of_fuel out h = h
