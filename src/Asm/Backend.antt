-- ===== src/Asm/Backend.antt =====
-- asm/compiler.go: compile from the end of the expansion on, for a program that was expanded
-- without an error, and checkPCLabels of asm/compiler_analysis.go. The stack check and the warnings
-- are left out.
pub mod Kept
pub mod Prepared
pub mod PreEvaluated
pub mod Pairs
pub mod Sources
pub mod Origins
pub mod Calm
pub mod Total
use geas.Prelude.{
  ℕ, Bool, Option, none, some, List, [], ◌∷◌, ◌++◌, map, ◌==◌, nat_eq, if◌then◌else◌,
}
use geas.Evm.Defs.{InstructionSet}
use geas.Evm.InstructionSet.{supports_push0}
use geas.Asm.Program.{Instruction, Elem, instructions}
use geas.Asm.Arguments.{AsmError, Evaluator, pre_evaluate_args}
use geas.Asm.Layout.{LaidOut, done, out_of_fuel, layout}
use geas.Asm.Output.{Emitted, generate_output}

pub data CompileError : Type 0 where
  argument : AsmError → CompileError
  pc_label_mismatch : ℕ → ℕ → CompileError

-- `written` holds what generateOutput gives, a panic included.
pub data Compiled : Type 0 where
  errors : List CompileError → Compiled
  written : Emitted → Compiled
  unfinished : Compiled

pc_error : Option ℕ → ℕ → List CompileError
pc_error none pc = []
pc_error (some label) pc = if label == pc then [] else pc_label_mismatch label pc ∷ []

abbrev pub last_error : Option AsmError → List CompileError
last_error none = []
last_error (some e) = argument e ∷ []

module _ {E : Type 0} where
  unfoldable pub check_pc_labels : List (Instruction E) → List CompileError
  unfolding pc_error
  check_pc_labels [] = []
  check_pc_labels (i ∷ insts) = pc_error i.pc_label i.pc ++ check_pc_labels insts

  -- No output if there are errors.
  abbrev pub write : InstructionSet → List (Elem E) → List CompileError → Compiled
  write is elems [] = written (generate_output is (instructions elems))
  write is elems (e ∷ es) = errors (e ∷ es)

  abbrev pub finish : InstructionSet → List AsmError → LaidOut E → Compiled
  finish is errs out_of_fuel = unfinished
  finish is errs (done elems e) =
      write is elems (map argument errs ++ last_error e ++ check_pc_labels (instructions elems))

  unfoldable pub compile_expanded : InstructionSet → Evaluator E → List (Elem E) → Compiled
  compile_expanded is eval elems =
      let (elems', errs) = pre_evaluate_args (supports_push0 is) eval elems in
      finish is errs (layout (supports_push0 is) eval elems')
