-- ===== src/Asm/Tests.antt =====
-- Runs of the assembler on small programs.
use geas.Prelude.{
  ℕ, ◌≡◌, ◌≢◌, refl, true, false, Option, none, some, List, [], ◌∷◌, String, get_or, replicate,
  insert, empty, string_eq, nat_eq, arith, All, inl, ◌==◌, if◌then◌else◌,
}
use geas.Prelude.Int.{pos}
use geas.Lzint.{from_int, from_bytes, nat_bytes}
use geas.Asm.Program.{
  Instruction, Elem, inst, section_start, section_end, instructions, compute_pc, encoded_size,
}
use geas.Asm.Arguments.{
  Evaluated, value, unassigned_label, evaluate_args, evaluate_arg, assign_push_arg,
}
use geas.Asm.Backend.Prepared.{HasOpcodes}
use geas.Asm.Backend.PreEvaluated.{IsExpanded, bytes_arg, push_arg, no_arg}
use geas.Asm.Layout.{done, out_of_fuel, layout, round}
use geas.Evm.Op.{op}
use geas.Evm.Defs.{InstructionSet}
use geas.Evm.InstructionSet.{op_by_name, push_by_size}
use geas.Evm.Effect.{decimal}
use geas.Asm.Output.{generate_output, resolve_push}
use geas.Asm.Output.Encoding.{
  Outputs, EncodesAll, raw, push, plain, immediate, generate_output-Outputs,
}
use geas.Asm.Layout.Termination.{layout_ends}
use geas.Asm.Program.Pc.{IsPlaced}
use geas.Asm.Layout.Fixpoint.{IsFixpoint, layout-IsFixpoint}

-- An expression is the number of an instruction, and its value is where that stands.
abbrev label_value : Option (List ℕ) → ℕ → Evaluated
label_value none e = unassigned_label
label_value (some pcs) e = value (from_int (pos (get_or pcs e 0)))

abbrev plain_inst : String → ℕ → Instruction ℕ
plain_inst name at_pc = record {
  op = name;
  arg = none;
  explicit_size = none;
  pc_label = none;
  pc = at_pc;
  data_size = 0;
  data_bytes = [];
  arg_no_labels = false;
}

-- push @end
-- #bytes of 300 zeros
-- end:
-- jumpdest
abbrev far_jump : List (Elem ℕ)
far_jump =
    section_start 0 0
    ∷ inst (record (plain_inst "PUSH" 0) { arg = some 2; data_size = 1 })
    ∷ inst (record (plain_inst "#bytes" 0) {
      data_size = 300;
      data_bytes = replicate 300 0;
      arg_no_labels = true;
    })
    ∷ inst (plain_inst "JUMPDEST" 0)
    ∷ section_end 0 0
    ∷ []

abbrev far_jump_laid_out : List (Elem ℕ)
far_jump_laid_out =
    section_start 0 0
    ∷ inst (record (plain_inst "PUSH" 0) { arg = some 2; data_size = 2; data_bytes = 1 ∷ 47 ∷ [] })
    ∷ inst (record (plain_inst "#bytes" 3) {
      data_size = 300;
      data_bytes = replicate 300 0;
      arg_no_labels = true;
    })
    ∷ inst (plain_inst "JUMPDEST" 303)
    ∷ section_end 0 304
    ∷ []

layout-far_jump : layout true label_value far_jump ≡ done far_jump_laid_out none
unfolding layout round evaluate_args compute_pc evaluate_arg assign_push_arg from_int nat_bytes
    instructions encoded_size
layout-far_jump = refl

layout-IsFixpoint_example : IsFixpoint label_value far_jump_laid_out
layout-IsFixpoint_example =
    layout-IsFixpoint true label_value far_jump far_jump_laid_out layout-far_jump

layout_ends_example : layout true label_value far_jump ≢ out_of_fuel
layout_ends_example = layout_ends true label_value far_jump

-- The instructions PUSH2, JUMPDEST and DUPN.
abbrev three_ops : InstructionSet
three_ops = record {
  name = "test";
  by_name = insert "PUSH2" (op "PUSH2" 0x61 [] ("word" ∷ [])) (
      insert "JUMPDEST" (op "JUMPDEST" 0x5b [] [])
        (insert "DUPN" (record (op "DUPN" 0xe6 [] []) { has_immediate = true }) empty));
  by_code = empty;
  op_removed = empty;
}

abbrev placed_program : List (Elem ℕ)
placed_program =
    section_start 0 0
    ∷ inst (record (plain_inst "PUSH" 0) { data_size = 2; data_bytes = 47 ∷ [] })
    ∷ inst (record (plain_inst "#bytes" 3) { data_size = 2; data_bytes = 7 ∷ 8 ∷ [] })
    ∷ inst (record (plain_inst "DUPN" 5) { data_size = 1; data_bytes = 3 ∷ [] })
    ∷ section_end 0 7
    ∷ inst (plain_inst "JUMPDEST" 7)
    ∷ []

abbrev output_bytes : List ℕ
output_bytes = 0x61 ∷ 0 ∷ 47 ∷ 7 ∷ 8 ∷ 0xe6 ∷ 3 ∷ 0x5b ∷ []

placed_program-Encodes : EncodesAll three_ops (instructions placed_program) output_bytes
unfolding instructions resolve_push op_by_name push_by_size decimal
placed_program-Encodes = (
  0x61 ∷ 0 ∷ 47 ∷ [],
  7 ∷ 8 ∷ 0xe6 ∷ 3 ∷ 0x5b ∷ [],
  refl,
  push (op "PUSH2" 0x61 [] ("word" ∷ [])) 1 refl refl refl refl (ground arith) refl,
  (
    7 ∷ 8 ∷ [],
    0xe6 ∷ 3 ∷ 0x5b ∷ [],
    refl,
    raw refl refl,
    (
      0xe6 ∷ 3 ∷ [],
      0x5b ∷ [],
      refl,
      immediate (record (op "DUPN" 0xe6 [] []) { has_immediate = true }) 3 refl refl refl refl refl
          refl refl,
      (0x5b ∷ [], [], refl, plain (op "JUMPDEST" 0x5b [] []) refl refl refl refl refl refl, refl),
    ),
  ),
)

placed_program-IsPlaced : IsPlaced 0 placed_program
unfolding encoded_size
placed_program-IsPlaced = (refl, (refl, (refl, (refl, (refl, (refl, tt))))))

generate_output-Outputs_example :
    Outputs (generate_output three_ops (instructions placed_program)) output_bytes
generate_output-Outputs_example =
    generate_output-Outputs three_ops placed_program output_bytes placed_program-IsPlaced
      placed_program-Encodes

-- A set in which every name has an instruction.
abbrev any_ops : InstructionSet
any_ops = record {
  name = "test";
  by_name = λ name. some (op name 0x5b [] []);
  by_code = empty;
  op_removed = empty;
}

-- Expression 9 is the value 0x0708, and the others are labels.
abbrev mixed_value : Option (List ℕ) → ℕ → Evaluated
mixed_value pcs e = if e == 9 then value (from_bytes (7 ∷ 8 ∷ [])) else label_value pcs e

abbrev expanded_program : List (Elem ℕ)
expanded_program =
    section_start 0 0
    ∷ inst (record (plain_inst "PUSH" 0) { arg = some 2 })
    ∷ inst (record (plain_inst "#bytes" 0) { arg = some 9 })
    ∷ inst (plain_inst "JUMPDEST" 0)
    ∷ section_end 0 0
    ∷ []

push-HasOpcodes : HasOpcodes any_ops "PUSH"
unfolding resolve_push push_by_size
push-HasOpcodes n le some_byte = (_, refl)

expanded_program-IsExpanded : All (IsExpanded any_ops) (instructions expanded_program)
unfolding instructions op_by_name
expanded_program-IsExpanded = (
  push_arg (record {
    term = 2;
    has_arg = refl;
    not_raw = refl;
    is_push_op = refl;
    not_empty = refl;
    not_evaluated = refl;
    sizes = λ n h. absurd (cc h);
    opcodes = push-HasOpcodes;
  }),
  (
    bytes_arg 9 refl refl,
    (no_arg _ refl (inl refl) (plain (op "JUMPDEST" 0x5b [] []) refl refl refl refl refl refl), tt),
  ),
)
