-- ===== src/Asm/Output.antt =====
-- asm/compiler.go, generateOutput, and the check for unreachable code of asm/compiler_analysis.go.
-- A statement is known by the PC of its instruction, and a byte is a number.
pub mod Encoding
use geas.Prelude.{
  ℕ, ◌+◌, ◌-◌, Bool, true, false, not, ◌&&◌, ◌||◌, Option, none, some, List, [], ◌∷◌, ◌++◌, String,
  ltb, ◌==◌, nat_eq, string_eq, if◌then◌else◌, length, replicate,
}
use geas.Evm.Op.{Op}
use geas.Evm.Defs.{InstructionSet}
use geas.Evm.InstructionSet.{op_by_name, push_by_size}
use geas.Asm.Program.{Instruction, is_bytes, is_push}

-- The panics of generateOutput.
pub data Bug : Type 0 where
  wrong_pc push_too_large push_data_too_long push_op_not_found unexpected_data : Bug
  empty_with_data : Bug

-- A warning names the statement, and the previous instruction with its statement.
pub record Warning : Type 0 where
  pub at_pc : ℕ
  pub prev_name : String
  pub prev_pc : ℕ

pub record ReachCheck : Type 0 where
  pub prev : Option (ℕ × Op)
  pub in_unreachable : Bool

-- `unknown` holds the names of the errors for unknown opcodes.
pub record Output : Type 0 where
  pub bytes : List ℕ
  pub unknown : List String
  pub warnings : List Warning
  pub reach : ReachCheck

pub data Emitted : Type 0 where
  emitted : Output → Emitted
  bug : Bug → Emitted

ends_code : Op → Bool
ends_code o = o.term || o.unconditional

warned : Option (ℕ × Op) → ℕ → Op → List Warning
unfolding ends_code
warned none pc o = []
warned (some (prev_pc, prev)) pc o =
    if ends_code prev && not o.jump_dest
    then record { at_pc = pc; prev_name = prev.name; prev_pc = prev_pc } ∷ []
    else []

non_empty {ℓ} : {A : Type ℓ} → List A → Bool
non_empty [] = false
non_empty (_ ∷ _) = true

-- unreachableCodeCheck.check: the state after it, and the warning that it gives, if any.
unfoldable pub check_reach : ReachCheck → ℕ → Op → ReachCheck × List Warning
unfolding warned non_empty
check_reach r pc o =
    let w = warned r.prev pc o in
    let still = r.in_unreachable && not (o.name == "JUMPDEST") in
    (record { prev = some (pc, o); in_unreachable = still || non_empty w }, w)

-- The check runs while no error has been added.
checked : ℕ → Op → Output → Output
unfolding check_reach
checked pc o out =
    let (r, w) = check_reach out.reach pc o in
    if non_empty out.unknown then out else record out { reach = r; warnings = out.warnings ++ w }

append_bytes : List ℕ → Output → Output
append_bytes bs out = record out { bytes = out.bytes ++ bs }

unfoldable pub resolve_push : InstructionSet → String → ℕ → Option Op
resolve_push is name size = if name == "PUSH" then push_by_size is size else op_by_name is name

abbrev pub with_output : Emitted → (Output → Emitted) → Emitted
with_output (emitted out) next = next out
with_output (bug b) next = bug b

abbrev pub no_output : Output
no_output = record {
  bytes = [];
  unknown = [];
  warnings = [];
  reach = record { prev = none; in_unreachable = false };
}

module _ {E : Type 0} where
  push_bytes : Instruction E → Op → List ℕ
  push_bytes i o = o.code ∷ replicate (i.data_size - length i.data_bytes) 0 ++ i.data_bytes

  emit_push : Instruction E → Output → Option Op → Emitted
  unfolding checked append_bytes push_bytes
  emit_push i out none = bug push_op_not_found
  emit_push i out (some o) = emitted (append_bytes (push_bytes i o) (checked i.pc o out))

  emit_named : Instruction E → Output → Option Op → Emitted
  unfolding checked append_bytes non_empty
  emit_named i out none = emitted (record out { unknown = out.unknown ++ i.op ∷ [] })
  emit_named i out (some o) =
      if non_empty i.data_bytes && not o.has_immediate
      then bug unexpected_data
      else emitted (checked i.pc o (append_bytes (o.code ∷ i.data_bytes) out))

  -- The cases of the switch, for an instruction that stands at its PC.
  emit_at_pc : InstructionSet → Instruction E → Output → Emitted
  unfolding emit_push emit_named append_bytes non_empty
  emit_at_pc is i out =
      if is_bytes i.op
      then emitted (append_bytes i.data_bytes out)
      else (if is_push i.op
          then (if ltb 32 i.data_size
              then bug push_too_large
              else (if ltb i.data_size (length i.data_bytes)
                  then bug push_data_too_long
                  else emit_push i out (resolve_push is i.op i.data_size)))
          else (if not (i.op == "")
              then emit_named i out (op_by_name is i.op)
              else (if non_empty i.data_bytes then bug empty_with_data else emitted out)))

  -- One round of the loop.
  unfoldable pub emit : InstructionSet → Instruction E → Output → Emitted
  unfolding emit_at_pc
  emit is i out = if length out.bytes == i.pc then emit_at_pc is i out else bug wrong_pc

  unfoldable pub generate_from : InstructionSet → List (Instruction E) → Output → Emitted
  generate_from is [] out = emitted out
  generate_from is (i ∷ rest) out = with_output (emit is i out) (generate_from is rest)

  unfoldable pub generate_output : InstructionSet → List (Instruction E) → Emitted
  unfolding generate_from
  generate_output is insts = generate_from is insts no_output
