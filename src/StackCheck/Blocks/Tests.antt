-- ===== src/StackCheck/Blocks/Tests.antt =====
-- A loop with a conditional jump.
use Prim.Native.Char.{Char, code}
use geas.Prelude.{
  ◌≡◌, refl, Bool, true, false, some, none, List, [], ◌∷◌, String, All, length, ◌==◌, nat_eq,
  string_eq, insert, empty, get_elem?,
}
use geas.Ast.{label_ref}
use geas.Ast.Statement.{Statement, StatementKind, opcode, label_def}
use geas.Evm.Op.{Op, op}
use geas.Evm.Defs.{InstructionSet}
use geas.StackCheck.Blocks.{BasicBlock, split_blocks}
use geas.StackCheck.Blocks.Labels.{StartsWith}
use geas.StackCheck.Blocks.Partition.{statements_of, IsBasic}
use geas.StackCheck.Blocks.Successors.{AreBelow, split_blocks-successors}
use geas.StackCheck.Blocks.Edges.{split_blocks-partition, split_blocks-index}

abbrev jumpi : Op
jumpi = record (op "JUMPI" 0x57 [] []) { jump = true }

abbrev stop : Op
stop = record (op "STOP" 0x00 [] []) { term = true }

abbrev fork : InstructionSet
fork = record {
  name = "test";
  by_name = insert "JUMPI" jumpi (insert "STOP" stop empty);
  by_code = insert 0x57 jumpi (insert 0x00 stop empty);
  op_removed = empty;
}

abbrev plain : StatementKind → Statement
plain k = record { kind = k; comment = none; starts_block = false }

-- loop: jumpi @loop stop
abbrev loop_doc : List Statement
loop_doc =
    plain (label_def (record { id = 0; ident = "loop"; dotted = false }))
    ∷ plain (opcode "JUMPI" (some (label_ref "loop" false)) [] 0)
    ∷ plain (opcode "STOP" none [] 0)
    ∷ []

abbrev same : String → String
same s = s

abbrev is_space : Char → Bool
is_space c = code c == b' '

abbrev never : Statement → Bool
never st = false

split_blocks-partition_example :
    (statements_of (split_blocks same is_space never fork loop_doc).0 ≡ loop_doc)
    × All (IsBasic same never fork) (split_blocks same is_space never fork loop_doc).0
split_blocks-partition_example = split_blocks-partition same is_space never fork loop_doc

split_blocks-index_example :
    (b : BasicBlock) × (get_elem? (split_blocks same is_space never fork loop_doc).0 0 ≡ some b)
    × (b.label ≡ "loop")
    × StartsWith "loop" b.statements
unfolding split_blocks
split_blocks-index_example = split_blocks-index same is_space never fork loop_doc "loop" 0 refl

split_blocks-successors_example :
    All
      (λ b. AreBelow (length (split_blocks same is_space never fork loop_doc).0) b.successors)
      (split_blocks same is_space never fork loop_doc).0
split_blocks-successors_example = split_blocks-successors same is_space never fork loop_doc
