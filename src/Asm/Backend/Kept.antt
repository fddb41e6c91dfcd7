-- ===== src/Asm/Backend/Kept.antt =====
-- What the layout loop keeps of each instruction.
use geas.Prelude.{
  ℕ, zero, suc, ◌+◌, ◌*◌, ◌≡◌, refl, ◌∙◌, ap, Bool, none, List, [], ◌∷◌, ◌++◌, length, All,
}
use mathlib.Core.Path.{subst}
use geas.Asm.Program.{
  Instruction, Elem, inst, section_start, section_end, compute_pc, instructions, encoded_size,
}
use geas.Asm.Arguments.{
  Evaluator, Assignment, assigned, refused, Round, all_assigned, failed, evaluate_args,
  evaluate_arg, variable_push_overflow, after_elem, with_assignment,
}
use geas.Asm.Layout.{LaidOut, done, bump, next_round, round, layout_loop, layout, pcs_of}

-- A property of instructions that every step of the loop keeps.
pub record IsKept {E : Type 0} (push0 : Bool) (eval : Evaluator E) (P : Instruction E → Type 0)
    : Type 0 where
  pub moved : (i : Instruction E) (pc : ℕ) → P i → P (record i { pc = pc })
  pub evaluated :
      (pcs : List ℕ) (i j : Instruction E) → evaluate_arg push0 eval pcs i ≡ assigned j → P i → P j
  pub bumped :
      (pcs : List ℕ) (i : Instruction E)
      → evaluate_arg push0 eval pcs i ≡ refused variable_push_overflow
      → P i
      → P (bump i)

module _ {E : Type 0} (push0 : Bool) (eval : Evaluator E) (P : Instruction E → Type 0)
    (kept : IsKept push0 eval P) where
  abbrev AllInst : List (Elem E) → Type 0
  AllInst [] = Unit
  AllInst (inst i ∷ elems) = P i × AllInst elems
  AllInst (section_start _ _ ∷ elems) = AllInst elems
  AllInst (section_end _ _ ∷ elems) = AllInst elems

  AllInst-append : (xs ys : List (Elem E)) → AllInst xs → AllInst ys → AllInst (xs ++ ys)
  AllInst-append [] ys all all' = all'
  AllInst-append (inst i ∷ xs) ys all all' = (all.0, AllInst-append xs ys all.1 all')
  AllInst-append (section_start _ _ ∷ xs) ys all all' = AllInst-append xs ys all all'
  AllInst-append (section_end _ _ ∷ xs) ys all all' = AllInst-append xs ys all all'

  AllInst-compute_pc :
      (pc : ℕ) (elems : List (Elem E)) → AllInst elems → AllInst (compute_pc pc elems)
  unfolding compute_pc
  AllInst-compute_pc pc [] all = tt
  AllInst-compute_pc pc (inst i ∷ elems) all =
      (kept.moved i pc all.0, AllInst-compute_pc (pc + encoded_size i) elems all.1)
  AllInst-compute_pc pc (section_start _ _ ∷ elems) all = AllInst-compute_pc pc elems all
  AllInst-compute_pc pc (section_end _ _ ∷ elems) all = AllInst-compute_pc pc elems all

  abbrev RoundAll : Round E → Type 0
  RoundAll (all_assigned elems) = AllInst elems
  RoundAll (failed before i after e) =
      AllInst before × AllInst after × (e ≡ variable_push_overflow → P (bump i))

  start-RoundAll :
      (s o : ℕ) (r : Round E) → RoundAll r → RoundAll (after_elem (section_start s o) r)
  start-RoundAll s o (all_assigned elems) all = all
  start-RoundAll s o (failed before i after e) all = all

  end-RoundAll : (s o : ℕ) (r : Round E) → RoundAll r → RoundAll (after_elem (section_end s o) r)
  end-RoundAll s o (all_assigned elems) all = all
  end-RoundAll s o (failed before i after e) all = all

  inst-RoundAll :
      (pcs : List ℕ) (i : Instruction E) (elems : List (Elem E)) (a : Assignment E) (r : Round E)
      → evaluate_arg push0 eval pcs i ≡ a
      → P i
      → AllInst elems
      → RoundAll r
      → RoundAll (with_assignment i elems a r)
  inst-RoundAll pcs i elems (assigned j) (all_assigned after) e p rest all =
      (kept.evaluated pcs i j e p, all)
  inst-RoundAll pcs i elems (assigned j) (failed b k after x) e p rest all =
      ((kept.evaluated pcs i j e p, all.0), all.1, all.2)
  inst-RoundAll pcs i elems (refused x) r e p rest all =
      (tt, rest, λ q. kept.bumped pcs i (e ∙ ap refused q) p)

  evaluate_args-RoundAll :
      (pcs : List ℕ) (elems : List (Elem E))
      → AllInst elems
      → RoundAll (evaluate_args push0 eval pcs elems)
  unfolding evaluate_args
  evaluate_args-RoundAll pcs [] all = tt
  evaluate_args-RoundAll pcs (section_start s o ∷ elems) all =
      start-RoundAll s o (evaluate_args push0 eval pcs elems) (evaluate_args-RoundAll pcs elems all)
  evaluate_args-RoundAll pcs (section_end s o ∷ elems) all =
      end-RoundAll s o (evaluate_args push0 eval pcs elems) (evaluate_args-RoundAll pcs elems all)
  evaluate_args-RoundAll pcs (inst i ∷ elems) all =
      inst-RoundAll pcs i elems (evaluate_arg push0 eval pcs i) (evaluate_args push0 eval pcs elems)
        refl all.0 all.1 (evaluate_args-RoundAll pcs elems all.1)

  abbrev EndsAll : LaidOut E → Type 0
  EndsAll (done elems none) = AllInst elems
  EndsAll _ = Unit

  next_round-EndsAll :
      (r : Round E) (again : List (Elem E) → LaidOut E)
      → RoundAll r
      → ((l : List (Elem E)) → AllInst l → EndsAll (again l))
      → EndsAll (next_round r again)
  next_round-EndsAll (all_assigned after) again all rest = all
  next_round-EndsAll (failed b i a variable_push_overflow) again all rest =
      rest _ (AllInst-append b _ all.0 (all.2 refl, all.1))
  next_round-EndsAll (failed b i a _) again all rest = tt

  layout_loop-EndsAll :
      (fuel : ℕ) (elems : List (Elem E))
      → AllInst elems
      → EndsAll (layout_loop push0 eval fuel elems)
  unfolding layout_loop round
  layout_loop-EndsAll zero elems all = tt
  layout_loop-EndsAll (suc fuel) elems all =
      next_round-EndsAll (round push0 eval elems) (layout_loop push0 eval fuel)
        (evaluate_args-RoundAll (pcs_of (compute_pc 0 elems)) (compute_pc 0 elems)
          (AllInst-compute_pc 0 elems all))
        (layout_loop-EndsAll fuel)

  All-AllInst : (elems : List (Elem E)) → All P (instructions elems) → AllInst elems
  unfolding instructions
  All-AllInst [] all = tt
  All-AllInst (inst i ∷ elems) all = (all.0, All-AllInst elems all.1)
  All-AllInst (section_start _ _ ∷ elems) all = All-AllInst elems all
  All-AllInst (section_end _ _ ∷ elems) all = All-AllInst elems all

  AllInst-All : (elems : List (Elem E)) → AllInst elems → All P (instructions elems)
  unfolding instructions
  AllInst-All [] all = tt
  AllInst-All (inst i ∷ elems) all = (all.0, AllInst-All elems all.1)
  AllInst-All (section_start _ _ ∷ elems) all = AllInst-All elems all
  AllInst-All (section_end _ _ ∷ elems) all = AllInst-All elems all

  pub layout-All :
      (elems after : List (Elem E))
      → All P (instructions elems)
      → layout push0 eval elems ≡ done after none
      → All P (instructions after)
  unfolding layout
  layout-All elems after all h = AllInst-All after (
      subst EndsAll h (
        layout_loop-EndsAll (suc (32 * length (instructions elems))) elems (All-AllInst elems all)))
