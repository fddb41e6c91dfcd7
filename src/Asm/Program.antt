-- ===== src/Asm/Program.antt =====
-- asm/compiler_prog.go: the output program of the compiler as it is after expansion, a sequence of
-- instructions and section bounds, and how their PC values are assigned. The argument expression of
-- an instruction, with the environment of its section, is an element of the parameter type `E`.
pub mod Pc
use text.Mathlib.Text.{starts_with}
use geas.Prelude.{
  ℕ, ◌+◌, Bool, true, false, Option, none, some, List, [], ◌∷◌, String, ◌==◌, string_eq, ◌||◌,
  if◌then◌else◌,
}

-- `arg` is what expr() gives, `explicit_size` what explicitPushSize gives, and `pc_label` the PC of
-- a pc label statement.
pub record Instruction (E : Type 0) : Type 0 where
  pub op : String
  pub arg : Option E
  pub explicit_size : Option ℕ
  pub pc_label : Option ℕ
  pub pc : ℕ
  pub data_size : ℕ
  pub data_bytes : List ℕ
  pub arg_no_labels : Bool

-- A section is a number here; its bound keeps the PC that computePC writes into the section.
pub data Elem (E : Type 0) : Type 0 where
  inst : Instruction E → Elem E
  section_start section_end : ℕ → ℕ → Elem E

abbrev pub is_bytes : String → Bool
is_bytes op = op == "#bytes"

-- ast.IsPush
abbrev pub is_push : String → Bool
is_push op = starts_with op "PUSH"

unfoldable pub encoded_size : {E : Type 0} → Instruction E → ℕ
encoded_size i = (if is_bytes i.op || i.op == "" then 0 else 1) + i.data_size

module _ {E : Type 0} where
  unfoldable pub compute_pc : ℕ → List (Elem E) → List (Elem E)
  compute_pc pc [] = []
  compute_pc pc (inst i ∷ elems) =
      inst (record i { pc = pc }) ∷ compute_pc (pc + encoded_size i) elems
  compute_pc pc (section_start s old ∷ elems) = section_start s pc ∷ compute_pc pc elems
  compute_pc pc (section_end s old ∷ elems) = section_end s pc ∷ compute_pc pc elems

  -- iterInstructions, without the sections: those are in the arguments.
  unfoldable pub instructions : List (Elem E) → List (Instruction E)
  instructions [] = []
  instructions (inst i ∷ elems) = i ∷ instructions elems
  instructions (section_start _ _ ∷ elems) = instructions elems
  instructions (section_end _ _ ∷ elems) = instructions elems
