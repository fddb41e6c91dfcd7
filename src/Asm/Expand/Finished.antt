-- ===== src/Asm/Expand/Finished.antt =====
-- A whole program after the expansion.
use geas.Prelude.{
  ℕ, zero, suc, ◌+◌, ◌*◌, ◌<◌, ◌≤◌, ◌≡◌, ◌∙◌, refl, sym, ap, inl, inr, Bool, false, Option, none,
  some, List, [], ◌∷◌, nat_eq, nat_beq_iff, string_eq, ltb, length, All, arith, Bool-cases,
}
use mathlib.Core.Path.{subst}
use geas.Ast.{Document, info}
use geas.Evm.Defs.{InstructionSet}
use geas.Asm.Program.{Instruction, section_end, instructions}
use geas.Asm.Output.Encoding.{nothing}
use geas.Asm.Backend.PreEvaluated.{IsExpanded, no_arg}
use geas.Asm.Evaluator.Builtins.{member}
use geas.Asm.Evaluator.Total.{remaining}
use geas.Asm.Expand.Defs.{
  Input, Term, PendingLabel, Prog, Outcome, finished, panicked, out_of_fuel, add_instruction,
  empty_instruction, new_compiler_prog, close_labels, close_toplevel, finish_expansion,
}
use geas.Asm.Expand.Opcode.Usable.{add-Ends}
use geas.Ast.Statement.{Statement}
use geas.Asm.Expand.{
  after, and_then, check_params, expand_kind, expand_statements, expand, expand_program,
}
use geas.Asm.Expand.Invariant.{
  IsNested, IsNested-append, open_sections, Points, IsDotted, IsWf, Lands, All-weaken, Same,
  Same-refl, Ends,
}
use geas.Asm.Expand.Sections.{instructions-end}
use geas.Asm.Expand.Total.{IsLoaded, expand-Ends}

remaining_le_length : (macros stack : List ℕ) → remaining macros stack ≤ length macros
remaining_le_length [] stack = omega arith
remaining_le_length (m ∷ macros) stack = ground (arith, remaining_le_length macros stack)

-- The label has an instruction.
abbrev pub IsLinked : List (Instruction Term) → PendingLabel → Type 0
IsLinked insts l = (n : ℕ) × (l.instr ≡ some n) × Lands insts l.def.dotted n

nobody_waits :
    (insts : List (Instruction Term)) (current : List ℕ) (number : ℕ) (dotted : Bool) (o : Option ℕ)
    → length current ≡ 0
    → Points IsDotted insts current number dotted o
    → (n : ℕ) × (o ≡ some n) × Lands insts dotted n
unfolding member
nobody_waits insts [] number dotted none e h = absurd (cc h.0)
nobody_waits insts (c ∷ current) number dotted none e h = absurd (omega arith)
nobody_waits insts current number dotted (some n) e h = (n, refl, h.1)

-- All that the expansion gives to the later steps.
abbrev pub Finished : InstructionSet → Outcome → Type 0
Finished is (finished none p) =
    IsNested [] p.elems []
    × All (IsExpanded is) (instructions p.elems)
    × All (IsLinked (instructions p.elems)) p.labels
    × (p.macro_stack ≡ [])
Finished is (finished (some e) p) = ⊥
Finished is panicked = ⊥
Finished is out_of_fuel = ⊥

no_length : (n : ℕ) → ltb 0 n ≡ false → n ≡ 0
no_length n e = ground arith

module _ (is : InstructionSet) where
  initial-IsWf : (top : Document) (fresh : ℕ) → IsWf is (new_compiler_prog top fresh)
  unfolding new_compiler_prog instructions
  initial-IsWf top fresh = (refl, tt, tt)

  close_labels-Keeps :
      (p : Prog)
      → IsWf is p
      → Same p (close_labels p)
        × IsWf is (close_labels p)
        × (length (close_labels p).current_labels ≡ 0)
  unfolding close_labels empty_instruction add_instruction
  close_labels-Keeps p wf = elim (Bool-cases (ltb 0 (length p.current_labels))) [
    | inl e ↦
        let added =
          add-Ends is (empty_instruction p) p wf
            (no_arg [] refl (inl refl) (nothing refl refl refl refl refl)) tt in
        rw e (added.0, added.1, refl)
    | inr e ↦ rw e (Same-refl p, wf, no_length (length p.current_labels) e)
  ]

  close_toplevel-Finished :
      (p : Prog)
      → IsWf is p
      → p.cur.number ≡ p.toplevel
      → p.parents ≡ []
      → p.macro_stack ≡ []
      → length p.current_labels ≡ 0
      → Finished is (close_toplevel p)
  unfolding close_toplevel
  close_toplevel-Finished p (nested, expanded, labels) at_top no_parents left nobody =
      rw ((nat_beq_iff p.cur.number p.toplevel).1 at_top) (
        IsNested-append [] (p.cur.number ∷ []) [] p.elems (section_end p.toplevel 0 ∷ [])
            (subst (λ r. IsNested [] p.elems (open_sections p.cur r)) no_parents nested)
            (at_top, refl),
        subst (All (IsExpanded is)) (sym (instructions-end p.elems p.toplevel)) expanded,
        subst (λ insts. All (IsLinked insts) p.labels) (sym (instructions-end p.elems p.toplevel))
            (All-weaken _ _ p.labels
              (λ l h.
                nobody_waits (instructions p.elems) p.current_labels l.number l.def.dotted l.instr
                  nobody h.1)
              labels),
        left,
      )

  finish_expansion-Finished :
      (top : Document) (fresh : ℕ) (p : Prog)
      → Same (new_compiler_prog top fresh) p
      → IsWf is p
      → Finished is (finish_expansion p)
  unfolding finish_expansion new_compiler_prog
  finish_expansion-Finished top fresh p (cur, up, stack, toplevel) wf =
      let closed = close_labels-Keeps p wf in
      close_toplevel-Finished (close_labels p) closed.1
        (ap (λ f. f.number) (closed.0.0 ∙ cur) ∙ sym (closed.0.3 ∙ toplevel)) (closed.0.1 ∙ up)
        (closed.0.2 ∙ stack) closed.2

mul_le : (a b c : ℕ) → a ≤ b → a * c ≤ b * c
mul_le a b c h = grind arith

abbrev NoError : Outcome → Type 0
NoError (finished (some e) p) = ⊥
NoError _ = Unit

next-NoError :
    (o : Outcome) (next : Prog → Outcome)
    → ((q : Prog) → NoError (next q))
    → NoError (and_then o next)
unfolding and_then
next-NoError (finished none q) next h = h q
next-NoError (finished (some e) q) next h = h _
next-NoError panicked next h = tt
next-NoError out_of_fuel next h = tt

module _ (inp : Input) (is : InstructionSet) (macros : List ℕ) (most : ℕ) (level : ℕ → ℕ)
    (loaded : IsLoaded inp is macros most level) (fuel fresh : ℕ)
    (enough : length macros * suc most + most < fuel) where
  no_error :
      (body : Document → List Statement → Prog → Outcome) (doc : Document) (sts : List Statement)
      (p : Prog)
      → NoError (expand_statements inp body doc sts p)
  unfolding expand_statements and_then
  no_error body doc [] p = tt
  no_error body doc (st ∷ sts) p =
      next-NoError (expand_kind inp body st.kind doc (check_params st.kind p)) _
        (no_error body doc sts)

  expand-NoError :
      (f : ℕ) (p : Prog)
      → NoError (expand inp f inp.toplevel (inp.statements (info inp.toplevel).id) p)
  unfolding expand
  expand-NoError zero p = tt
  expand-NoError (suc f) p =
      no_error (expand inp f) inp.toplevel (inp.statements (info inp.toplevel).id) p

  after_expansion :
      (o : Outcome)
      → NoError o
      → Ends is (new_compiler_prog inp.toplevel fresh) o
      → Finished is (after o finish_expansion)
  unfolding after
  after_expansion (finished none p) n h = finish_expansion-Finished is inp.toplevel fresh p h.0 h.1
  after_expansion (finished (some e) p) n h = absurd n
  after_expansion panicked n h = h
  after_expansion out_of_fuel n h = h

  small : (stack : List ℕ) (d : ℕ) → remaining macros stack * suc most + level d < fuel
  small stack d = omega (
    arith,
    mul_le (remaining macros stack) (length macros) (suc most) (remaining_le_length macros stack),
    loaded.level_le d,
  )

  pub expand_program-Finished : Finished is (expand_program inp fuel fresh)
  unfolding expand_program
  expand_program-Finished = after_expansion _ (expand-NoError fuel _) (
      expand-Ends inp is macros most level loaded fuel inp.toplevel
        (inp.statements (info inp.toplevel).id) (level (info inp.toplevel).id)
        (new_compiler_prog inp.toplevel fresh) (initial-IsWf is inp.toplevel fresh)
        (loaded.statements_fit (info inp.toplevel).id) (small _ _))

  finished_facts :
      (o : Outcome)
      → Finished is o
      → (p : Prog) × (o ≡ finished none p) × Finished is (finished none p)
  finished_facts (finished none p) h = (p, refl, h)
  finished_facts (finished (some e) p) h = absurd h
  finished_facts panicked h = absurd h
  finished_facts out_of_fuel h = absurd h

  -- If the program is loaded, its fork known and usable, and the fuel more than one for each level of
  -- each macro, then the expansion ends, does not panic, and leaves no macro on the macro stack.
  pub expand_program_ends :
      (p : Prog) × (expand_program inp fuel fresh ≡ finished none p) × (p.macro_stack ≡ [])
  expand_program_ends = let (p, e, h) = finished_facts _ expand_program-Finished in (p, e, h.3)

  module _ (p : Prog) (result : expand_program inp fuel fresh ≡ finished none p) where
    facts : Finished is (finished none p)
    facts = subst (Finished is) result expand_program-Finished

    -- Under the same conditions the bounds of the sections in the result are nested, each closed, and
    -- each argument has the innermost section that is open at its instruction.
    pub expand_program-IsNested : IsNested [] p.elems []
    expand_program-IsNested = facts.0

    pub expand_program-IsExpanded : All (IsExpanded is) (instructions p.elems)
    expand_program-IsExpanded = facts.1

    -- Under the same conditions every label of the result points to an instruction of the result, and
    -- to a JUMPDEST if it is not dotted.
    pub expand_program-IsLinked : All (IsLinked (instructions p.elems)) p.labels
    expand_program-IsLinked = facts.2
