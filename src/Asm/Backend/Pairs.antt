-- ===== src/Asm/Backend/Pairs.antt =====
-- A relation between the instructions that the expansion makes and those of the layout loop, which
-- the loop keeps; and the panic of evaluateArgs, which it then does not meet.
use geas.Prelude.{
  ℕ, zero, suc, ◌+◌, ◌*◌, ◌≡◌, ◌≢◌, refl, ◌∙◌, ap, Bool, none, some, List, [], ◌∷◌, ◌++◌, length,
}
use geas.Asm.Program.{
  Instruction, Elem, inst, section_start, section_end, compute_pc, instructions, encoded_size,
}
use geas.Asm.Arguments.{
  Evaluator, Assignment, assigned, refused, Round, all_assigned, failed, evaluate_args,
  evaluate_arg, variable_push_overflow, unevaluated_bytes, after_elem, with_assignment,
}
use geas.Asm.Layout.{
  LaidOut, done, out_of_fuel, bump, next_round, round, layout_loop, layout, pcs_of,
}

-- The instructions of the list and those of the program correspond one by one.
abbrev pub Pairs :
    {E : Type 0}
    → (Instruction E → Instruction E → Type 0)
    → List (Instruction E)
    → List (Elem E)
    → Type 0
Pairs P origins [] = origins ≡ []
Pairs P origins (inst j ∷ elems) =
    (i : _) × (rest : _) × (origins ≡ i ∷ rest) × P i j × Pairs P rest elems
Pairs P origins (section_start _ _ ∷ elems) = Pairs P origins elems
Pairs P origins (section_end _ _ ∷ elems) = Pairs P origins elems

-- A relation that every step of the loop keeps, and under which no step panics.
pub record IsKeptPair {E : Type 0} (push0 : Bool) (eval : Evaluator E)
    (P : Instruction E → Instruction E → Type 0) : Type 0 where
  pub moved : (i j : Instruction E) (pc : ℕ) → P i j → P i (record j { pc = pc })
  pub evaluated :
      (pcs : List ℕ) (i j k : Instruction E)
      → evaluate_arg push0 eval pcs j ≡ assigned k
      → P i j
      → P i k
  pub bumped :
      (pcs : List ℕ) (i j : Instruction E)
      → evaluate_arg push0 eval pcs j ≡ refused variable_push_overflow
      → P i j
      → P i (bump j)
  pub sound :
      (pcs : List ℕ) (i j : Instruction E)
      → P i j
      → evaluate_arg push0 eval pcs j ≢ refused unevaluated_bytes

module _ {E : Type 0} (push0 : Bool) (eval : Evaluator E)
    (P : Instruction E → Instruction E → Type 0) (kept : IsKeptPair push0 eval P) where
  Pairs-compute_pc :
      (pc : ℕ) (origins : List (Instruction E)) (elems : List (Elem E))
      → Pairs P origins elems
      → Pairs P origins (compute_pc pc elems)
  unfolding compute_pc
  Pairs-compute_pc pc origins [] all = all
  Pairs-compute_pc pc origins (inst j ∷ elems) (i, rest, e, p, all) =
      (i, rest, e, kept.moved i j pc p, Pairs-compute_pc (pc + encoded_size j) rest elems all)
  Pairs-compute_pc pc origins (section_start _ _ ∷ elems) all =
      Pairs-compute_pc pc origins elems all
  Pairs-compute_pc pc origins (section_end _ _ ∷ elems) all = Pairs-compute_pc pc origins elems all

  abbrev RoundPairs : List (Instruction E) → Round E → Type 0
  RoundPairs origins (all_assigned elems) = Pairs P origins elems
  RoundPairs origins (failed before i after e) =
      (e ≡ variable_push_overflow → Pairs P origins (before ++ inst (bump i) ∷ after))
      × (e ≢ unevaluated_bytes)

  start-RoundPairs :
      (s o : ℕ) (origins : List (Instruction E)) (r : Round E)
      → RoundPairs origins r
      → RoundPairs origins (after_elem (section_start s o) r)
  start-RoundPairs s o origins (all_assigned elems) all = all
  start-RoundPairs s o origins (failed before i after e) all = all

  end-RoundPairs :
      (s o : ℕ) (origins : List (Instruction E)) (r : Round E)
      → RoundPairs origins r
      → RoundPairs origins (after_elem (section_end s o) r)
  end-RoundPairs s o origins (all_assigned elems) all = all
  end-RoundPairs s o origins (failed before i after e) all = all

  inst-RoundPairs :
      (pcs : List ℕ) (j : Instruction E) (origins : List (Instruction E)) (elems : List (Elem E))
      (a : Assignment E) (r : Round E)
      → evaluate_arg push0 eval pcs j ≡ a
      → Pairs P origins (inst j ∷ elems)
      → ((rest : List (Instruction E)) → Pairs P rest elems → RoundPairs rest r)
      → RoundPairs origins (with_assignment j elems a r)
  inst-RoundPairs pcs j origins elems (assigned k) (all_assigned after) e (i, rest, o, p, all) h =
      (i, rest, o, kept.evaluated pcs i j k e p, h rest all)
  inst-RoundPairs pcs j origins elems (assigned k) (failed b m after x) e (i, rest, o, p, all) h =
      let (more, calm) = h rest all in
      ((λ q. (i, rest, o, kept.evaluated pcs i j k e p, more q)), calm)
  inst-RoundPairs pcs j origins elems (refused x) r e (i, rest, o, p, all) h = (
    (λ q. (i, rest, o, kept.bumped pcs i j (e ∙ ap refused q) p, all)),
    (λ q. kept.sound pcs i j p (e ∙ ap refused q)),
  )

  evaluate_args-RoundPairs :
      (pcs : List ℕ) (origins : List (Instruction E)) (elems : List (Elem E))
      → Pairs P origins elems
      → RoundPairs origins (evaluate_args push0 eval pcs elems)
  unfolding evaluate_args
  evaluate_args-RoundPairs pcs origins [] all = all
  evaluate_args-RoundPairs pcs origins (section_start s o ∷ elems) all =
      start-RoundPairs s o origins (evaluate_args push0 eval pcs elems)
        (evaluate_args-RoundPairs pcs origins elems all)
  evaluate_args-RoundPairs pcs origins (section_end s o ∷ elems) all =
      end-RoundPairs s o origins (evaluate_args push0 eval pcs elems)
        (evaluate_args-RoundPairs pcs origins elems all)
  evaluate_args-RoundPairs pcs origins (inst j ∷ elems) all =
      inst-RoundPairs pcs j origins elems (evaluate_arg push0 eval pcs j)
        (evaluate_args push0 eval pcs elems) refl all
        (λ rest h. evaluate_args-RoundPairs pcs rest elems h)

  -- Without an error, the relation holds of the result; otherwise the error is not the panic.
  abbrev pub EndsPairs : List (Instruction E) → LaidOut E → Type 0
  EndsPairs origins (done elems none) = Pairs P origins elems
  EndsPairs origins (done elems (some e)) = e ≢ unevaluated_bytes
  EndsPairs origins out_of_fuel = Unit

  next_round-EndsPairs :
      (origins : List (Instruction E)) (r : Round E) (again : List (Elem E) → LaidOut E)
      → RoundPairs origins r
      → ((l : List (Elem E)) → Pairs P origins l → EndsPairs origins (again l))
      → EndsPairs origins (next_round r again)
  next_round-EndsPairs origins (all_assigned after) again all rest = all
  next_round-EndsPairs origins (failed b i a variable_push_overflow) again all rest =
      rest _ (all.0 refl)
  next_round-EndsPairs origins (failed b i a _) again all rest = all.1

  layout_loop-EndsPairs :
      (fuel : ℕ) (origins : List (Instruction E)) (elems : List (Elem E))
      → Pairs P origins elems
      → EndsPairs origins (layout_loop push0 eval fuel elems)
  unfolding layout_loop round
  layout_loop-EndsPairs zero origins elems all = tt
  layout_loop-EndsPairs (suc fuel) origins elems all =
      next_round-EndsPairs origins (round push0 eval elems) (layout_loop push0 eval fuel)
        (evaluate_args-RoundPairs (pcs_of (compute_pc 0 elems)) origins (compute_pc 0 elems)
          (Pairs-compute_pc 0 origins elems all))
        (layout_loop-EndsPairs fuel origins)

  pub layout-EndsPairs :
      (origins : List (Instruction E)) (elems : List (Elem E))
      → Pairs P origins elems
      → EndsPairs origins (layout push0 eval elems)
  unfolding layout
  layout-EndsPairs origins elems all =
      layout_loop-EndsPairs (suc (32 * length (instructions elems))) origins elems all
