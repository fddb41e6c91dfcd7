-- ===== src/Asm/Expand/Total.antt =====
-- The expansion of documents that the loader has loaded, with the macros and the includes in them.
use geas.Prelude.{
  ℕ, zero, suc, ◌+◌, ◌*◌, ◌<◌, ◌≤◌, ◌≡◌, refl, sym, true, Option, none, some, List, [], ◌∷◌, String,
  ◌==◌, nat_eq, length, All, arith,
}
use mathlib.Core.Path.{subst}
use geas.Ast.{Document, info, Expr, args_list, InstructionMacroDef}
use geas.Ast.Statement.{
  Statement, StatementKind, opcode, label_def, pc_label, instr_macro_call, include, assemble,
  pragma, bytes, comment_only, expr_macro_def, instr_macro_def,
}
use geas.Loader.{lookup_instr_macro}
use geas.Evm.Defs.{InstructionSet}
use geas.Asm.Evaluator.Defs.{MacroArgs, macro_args}
use geas.Asm.Evaluator.Builtins.{member}
use geas.Asm.Evaluator.Total.{remaining, remaining_lt, rank_lt}
use geas.Asm.Expand.Defs.{Input, Prog, Outcome, next_number, push_section, enter_macro, clone_body}
use geas.Asm.Expand.Opcode.Usable.{IsUsable, IsSized}
use geas.Asm.Expand.Opcode.Keeps.{expand_opcode-Ends}
use geas.Asm.Expand.{
  check_params, in_section, expand_body, call_entered, call_found, expand_macro_call, include_found,
  expand_include, expand_kind, expand_statements, expand,
}
use geas.Asm.Expand.Invariant.{IsWf, Same, Same-refl, Ends, if-Ends}
use geas.Asm.Expand.Sections.{next_number-IsWf, push_section-IsWf}
use geas.Asm.Expand.Labels.{expand_label-Ends}
use geas.Asm.Expand.Steps.{
  Same-Ends, and_then-Ends, check_params-Keeps, expand_pc_label-Ends, expand_assemble-Ends,
  expand_bytes-Ends, leave_section-Ends, in_macro-Ends,
}

-- What the parser and the loader see to, of a statement in a document of level `n`: an included
-- document has a lower level.
abbrev pub Fits : Input → InstructionSet → (ℕ → ℕ) → ℕ → StatementKind → Type 0
Fits inp is level n (opcode name operand imms size) = IsSized is (inp.to_upper name) size
Fits inp is level n (include number file) =
    (doc : Document) → inp.include_doc number ≡ some doc → level (info doc).id < n
Fits inp is level n _ = Unit

abbrev pub AllFit : Input → InstructionSet → (ℕ → ℕ) → ℕ → List Statement → Type 0
AllFit inp is level n sts = All (λ st. Fits inp is level n st.kind) sts

-- A loaded program: `macros` has every macro that a name may stand for.
pub record IsLoaded (inp : Input) (is : InstructionSet) (macros : List ℕ) (most : ℕ) (level : ℕ → ℕ)
    : Type 0 where
  pub fork_known : inp.fork ≡ some is
  pub usable : IsUsable is
  pub statements_fit : (d : ℕ) → AllFit inp is level (level d) (inp.statements d)
  pub level_le : (d : ℕ) → level d ≤ most
  pub macros_known :
      (name : String) (doc : Document) (def : InstructionMacroDef)
      → lookup_instr_macro inp.is_upper inp.program name doc ≡ some def
      → member def.id macros ≡ true

-- What is asked of the expansion of another document, with less fuel.
abbrev EndsBelow :
    Input
    → InstructionSet
    → List ℕ
    → ℕ
    → (ℕ → ℕ)
    → ℕ
    → (Document → List Statement → Prog → Outcome)
    → Type 0
EndsBelow inp is macros most level fuel body =
    (doc : Document) (sts : List Statement) (n : ℕ) (p : Prog)
    → IsWf is p
    → AllFit inp is level n sts
    → remaining macros p.macro_stack * suc most + n < fuel
    → Ends is p (body doc sts p)

module _ (inp : Input) (is : InstructionSet) (macros : List ℕ) (most : ℕ) (level : ℕ → ℕ)
    (loaded : IsLoaded inp is macros most level) where
  module _ (fuel : ℕ) (body : Document → List Statement → Prog → Outcome)
      (ends : EndsBelow inp is macros most level fuel body) where
    in_section-Ends :
        (doc : Document) (args : MacroArgs) (d : ℕ) (p : Prog)
        → IsWf is p
        → remaining macros p.macro_stack * suc most + level d < fuel
        → Ends is p (in_section inp body doc args (inp.statements d) p)
    unfolding in_section push_section
    in_section-Ends doc args d p wf small = leave_section-Ends inp is doc args p _ (
        ends doc (inp.statements d) (level d) (push_section doc args p)
          (push_section-IsWf is doc args p wf) (loaded.statements_fit d) small)

    call_entered-Ends :
        (name : String) (args : List Expr) (def : InstructionMacroDef) (p : Prog)
        → IsWf is p
        → remaining macros p.macro_stack * suc most + level (info def.body).id < fuel
        → Ends is p (call_entered inp body name args def p)
    unfolding call_entered expand_body
    call_entered-Ends name args def p wf small =
        if-Ends is p (length args == length def.params) _ _
          (λ e.
            in_section-Ends (clone_body def p.fresh) (macro_args def.params args p.cur.section)
              (info def.body).id (next_number p) (next_number-IsWf is p wf) small)
          λ e. (Same-refl p, wf)

    call_found-Ends :
        (name : String) (args : List Expr) (o : Option InstructionMacroDef) (n : ℕ) (p : Prog)
        → ((def : InstructionMacroDef) → o ≡ some def → member def.id macros ≡ true)
        → IsWf is p
        → remaining macros p.macro_stack * suc most + n < suc fuel
        → Ends is p (call_found inp body name args o p)
    unfolding call_found enter_macro
    call_found-Ends name args none n p known wf small = (Same-refl p, wf)
    call_found-Ends name args (some def) n p known wf small =
        if-Ends is p (member def.id p.macro_stack) _ _ (λ e. (Same-refl p, wf))
          λ e. in_macro-Ends inp is def p _ e (
            call_entered-Ends name args def (enter_macro def p) wf (
              omega (
                arith,
                rank_lt most (remaining macros (def.id ∷ p.macro_stack))
                    (remaining macros p.macro_stack) (level (info def.body).id) n
                    (remaining_lt macros p.macro_stack def.id (known def refl) e)
                    (loaded.level_le (info def.body).id),
              )))

    include_found-Ends :
        (o : Option Document) (n : ℕ) (p : Prog)
        → ((doc : Document) → o ≡ some doc → level (info doc).id < n)
        → IsWf is p
        → remaining macros p.macro_stack * suc most + n < suc fuel
        → Ends is p (include_found inp body o p)
    unfolding include_found
    include_found-Ends none n p lower wf small = (Same-refl p, wf)
    include_found-Ends (some doc) n p lower wf small =
        in_section-Ends doc _ (info doc).id p wf (omega (arith, lower doc refl))

    expand_kind-Ends :
        (kind : StatementKind) (doc : Document) (n : ℕ) (p : Prog)
        → Fits inp is level n kind
        → IsWf is p
        → remaining macros p.macro_stack * suc most + n < suc fuel
        → Ends is p (expand_kind inp body kind doc p)
    unfolding expand_kind expand_macro_call expand_include
    expand_kind-Ends (opcode name operand imms size) doc n p fits wf small =
        expand_opcode-Ends inp is loaded.fork_known loaded.usable name doc operand imms size p wf
          fits
    expand_kind-Ends (label_def def) doc n p fits wf small =
        expand_label-Ends inp is loaded.usable def doc p wf
    expand_kind-Ends (pc_label pc text) doc n p fits wf small = expand_pc_label-Ends inp is pc p wf
    expand_kind-Ends (instr_macro_call name args) doc n p fits wf small =
        call_found-Ends name (args_list args) _ n p (loaded.macros_known name doc) wf small
    expand_kind-Ends (include number file) doc n p fits wf small =
        include_found-Ends (inp.include_doc number) n p fits wf small
    expand_kind-Ends (assemble file) doc n p fits wf small = expand_assemble-Ends inp is file p wf
    expand_kind-Ends (bytes e label) doc n p fits wf small =
        expand_bytes-Ends inp is loaded.usable e label doc p wf
    expand_kind-Ends (pragma option value) doc n p fits wf small = (Same-refl p, wf)
    expand_kind-Ends (comment_only text) doc n p fits wf small = (Same-refl p, wf)
    expand_kind-Ends (expr_macro_def def) doc n p fits wf small = (Same-refl p, wf)
    expand_kind-Ends (instr_macro_def def) doc n p fits wf small = (Same-refl p, wf)

    expand_statements-Ends :
        (doc : Document) (sts : List Statement) (n : ℕ) (p : Prog)
        → IsWf is p
        → AllFit inp is level n sts
        → remaining macros p.macro_stack * suc most + n < suc fuel
        → Ends is p (expand_statements inp body doc sts p)
    unfolding expand_statements
    expand_statements-Ends doc [] n p wf fit small = (Same-refl p, wf)
    expand_statements-Ends doc (st ∷ sts) n p wf fit small =
        let checked = check_params-Keeps is st.kind p wf in
        let q = check_params st.kind p in
        let small_after = λ (r : Prog) (same : Same p r).
          subst (λ stack. remaining macros stack * suc most + n < suc fuel) (sym same.2) small in
        and_then-Ends is p (expand_kind inp body st.kind doc q) (expand_statements inp body doc sts)
          (Same-Ends is p q (expand_kind inp body st.kind doc q) checked.0
            (expand_kind-Ends st.kind doc n q fit.0 checked.1 (small_after q checked.0)))
          λ r same w. expand_statements-Ends doc sts n r w fit.1 (small_after r same)

  -- Enough fuel: one for each level of each macro that may still be entered.
  pub expand-Ends : (fuel : ℕ) → EndsBelow inp is macros most level fuel (expand inp fuel)
  unfolding expand
  expand-Ends zero doc sts n p wf fit small = absurd (omega arith)
  expand-Ends (suc fuel) doc sts n p wf fit small =
      expand_statements-Ends fuel (expand inp fuel) (expand-Ends fuel) doc sts n p wf fit small
