-- ===== src/Asm/Layout.antt =====
-- asm/compiler.go, compile: the loop that looks for sizes at which all PUSH arguments fit.
pub mod Termination
pub mod Fixpoint
use geas.Prelude.{
  ◌*◌, length, ℕ, zero, suc, ◌+◌, Bool, Option, none, some, List, [], ◌∷◌, ◌++◌, map,
}
use geas.Evm.Defs.{InstructionSet}
use geas.Asm.Program.{Instruction, Elem, inst, compute_pc, instructions}
use geas.Asm.Arguments.{
  AsmError, Evaluator, Round, all_assigned, failed, evaluate_args, negative_result,
  push_overflow_256, variable_push_overflow, fixed_size_push_overflow, label_in_bytes,
  label_unassigned, not_bytes, evaluation,
}

-- `done` holds the program and the error that ended the loop, if any.
pub data LaidOut (E : Type 0) : Type 0 where
  done : List (Elem E) → Option AsmError → LaidOut E
  out_of_fuel : LaidOut E

module _ {E : Type 0} where
  abbrev pub pcs_of : List (Elem E) → List ℕ
  pcs_of elems = map (λ i. i.pc) (instructions elems)

  -- `failedInst.dataSize += 1`
  abbrev pub bump : Instruction E → Instruction E
  bump i = record i { data_size = i.data_size + 1 }

  -- What follows a round: the end, another round after a bump, or the end by another error.
  abbrev pub next_round : Round E → (List (Elem E) → LaidOut E) → LaidOut E
  next_round (all_assigned elems) again = done elems none
  next_round (failed before i after variable_push_overflow) again =
      again (before ++ inst (bump i) ∷ after)
  next_round (failed before i after e) again = done (before ++ inst i ∷ after) (some e)

  -- One round: the PCs from the sizes, then the arguments from the PCs.
  unfoldable pub round : Bool → Evaluator E → List (Elem E) → Round E
  round push0 eval elems =
      let elems' = compute_pc 0 elems in evaluate_args push0 eval (pcs_of elems') elems'

  unfoldable pub layout_loop : Bool → Evaluator E → ℕ → List (Elem E) → LaidOut E
  layout_loop push0 eval zero elems = out_of_fuel
  layout_loop push0 eval (suc fuel) elems =
      let again = λ (l : List (Elem E)). layout_loop push0 eval fuel l in
      next_round (round push0 eval elems) again

  -- The loop as it stands in compile, with fuel that is always enough.
  unfoldable pub layout : Bool → Evaluator E → List (Elem E) → LaidOut E
  unfolding layout_loop
  layout push0 eval elems = layout_loop push0 eval (suc (32 * length (instructions elems))) elems
