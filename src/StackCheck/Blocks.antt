-- ===== src/StackCheck/Blocks.antt =====
-- internal/stackcheck/blocks.go: a document's statements as basic blocks. The fork is an instruction
-- set; strings.ToUpper, unicode.IsSpace and isTerminal, which the caller gives, are parameters. An
-- unnamed label is the empty text, as in the source.
pub mod Partition
pub mod Labels
pub mod Edges
pub mod Successors
mod Tests
use Prim.Native.Char.{Char}
use geas.Prelude.{
  ℕ, zero, suc, ◌+◌, Bool, true, false, not, ◌&&◌, ◌||◌, Option, none, some, List, [], ◌∷◌, ◌++◌,
  String, ltb, ◌==◌, nat_eq, string_eq, if◌then◌else◌, length, Map, empty, insert,
}
use geas.Ast.{Expr, literal, label_ref, variable, macro_call, binary, unary, group, LabelDef}
use geas.Ast.Statement.{
  Statement, StatementKind, opcode, label_def, pc_label, instr_macro_call, include, assemble,
  pragma, bytes, comment_only, expr_macro_def, instr_macro_def, is_stack_comment,
}
use geas.Evm.Op.{Op}
use geas.Evm.Defs.{InstructionSet}
use geas.Evm.InstructionSet.{op_by_name}

pub record BasicBlock : Type 0 where
  pub statements : List Statement
  pub label : String
  pub label_comment : Option String
  pub jump_target : String
  pub jump_st : Option Statement
  pub successors : List ℕ
  pub is_jump_target : Bool
  pub ends_with_terminal : Bool
  pub ends_with_unconditional_jump : Bool
  pub has_external_jump : Bool
  pub can_fall_through : Bool

unfoldable pub new_block : Bool → BasicBlock
new_block can_fall_through = record {
  statements = [];
  label = "";
  label_comment = none;
  jump_target = "";
  jump_st = none;
  successors = [];
  is_jump_target = false;
  ends_with_terminal = false;
  ends_with_unconditional_jump = false;
  has_external_jump = false;
  can_fall_through = can_fall_through;
}

-- The finished blocks and the current one.
abbrev pub Split : Type 0
Split = List BasicBlock × BasicBlock

unfoldable pub add_statement : Statement → BasicBlock → BasicBlock
add_statement st b = record b { statements = b.statements ++ st ∷ [] }

-- The current block is finished.
unfoldable pub close : Bool → List BasicBlock → BasicBlock → Split
unfolding new_block
close can_fall_through blocks cur = (blocks ++ cur ∷ [], new_block can_fall_through)

unfoldable pub start_label : Option String → LabelDef → Statement → BasicBlock → BasicBlock
unfolding add_statement
start_label stack_comment l st cur =
    add_statement st
      (record cur { label = l.ident; label_comment = stack_comment; is_jump_target = true })

-- The target of a jump with a label argument that is not dotted.
unfoldable pub record_target : Statement → Option Expr → BasicBlock → BasicBlock
record_target st (some (label_ref ident false)) cur = record cur {
  jump_target = ident;
  jump_st = some st;
}
record_target st _ cur = cur

unfoldable pub split_opcode :
    Option Op → Statement → Option Expr → List BasicBlock → BasicBlock → Split
unfolding close record_target
split_opcode none st e blocks cur = (blocks, cur)
split_opcode (some o) st e blocks cur =
    if o.term || o.unconditional
    then close false blocks (record (if o.jump then record_target st e cur else cur) {
      ends_with_terminal = o.term;
      ends_with_unconditional_jump = o.unconditional;
    })
    else (if o.jump then close true blocks (record_target st e cur) else (blocks, cur))

-- labelComment stays as it was when the label has no stack comment; the block is new then.
stack_comment_of : (Char → Bool) → Statement → Option String → Option String
unfolding is_stack_comment
stack_comment_of is_space st old = elim st.comment [
  | none ↦ old
  | some text ↦ if is_stack_comment is_space text then some text else old
]

module _ (to_upper : String → String) (is_space : Char → Bool) (is_terminal : Statement → Bool)
    (fork : InstructionSet) where
  pub split_label : LabelDef → Statement → List BasicBlock → BasicBlock → Split
  unfolding new_block start_label stack_comment_of add_statement
  split_label l st blocks cur =
      if l.dotted
      then (blocks, add_statement st cur)
      else (if ltb 0 (length cur.statements)
          then (let next =
                new_block (not cur.ends_with_terminal && not cur.ends_with_unconditional_jump) in
              (
                blocks ++ cur ∷ [],
                start_label (stack_comment_of is_space st next.label_comment) l st next,
              ))
          else (blocks, start_label (stack_comment_of is_space st cur.label_comment) l st cur))

  pub split_other : Statement → List BasicBlock → BasicBlock → Split
  unfolding close add_statement
  split_other st blocks cur =
      if is_terminal st
      then close false blocks (record (add_statement st cur) { ends_with_terminal = true })
      else (blocks, add_statement st cur)

  split_kind : StatementKind → Statement → List BasicBlock → BasicBlock → Split
  unfolding split_label split_other split_opcode add_statement op_by_name
  split_kind (label_def l) st blocks cur = split_label l st blocks cur
  split_kind (opcode op e immediates size) st blocks cur =
      split_opcode (op_by_name fork (to_upper op)) st e blocks (add_statement st cur)
  split_kind (pc_label pc text) st blocks cur = split_other st blocks cur
  split_kind (instr_macro_call ident args) st blocks cur = split_other st blocks cur
  split_kind (include number file) st blocks cur = split_other st blocks cur
  split_kind (assemble file) st blocks cur = split_other st blocks cur
  split_kind (pragma option value) st blocks cur = split_other st blocks cur
  split_kind (bytes value label) st blocks cur = split_other st blocks cur
  split_kind (comment_only text) st blocks cur = split_other st blocks cur
  split_kind (expr_macro_def def) st blocks cur = split_other st blocks cur
  split_kind (instr_macro_def def) st blocks cur = split_other st blocks cur

  unfoldable pub split_loop : List Statement → List BasicBlock → BasicBlock → Split
  unfolding split_kind
  split_loop [] blocks cur = (blocks, cur)
  split_loop (st ∷ sts) blocks cur =
      let (blocks', cur') = split_kind st.kind st blocks cur in split_loop sts blocks' cur'

-- The final block is kept if it has statements.
unfoldable pub last_block : Split → List BasicBlock
last_block (blocks, cur) = if ltb 0 (length cur.statements) then blocks ++ cur ∷ [] else blocks

-- The index of the blocks from the number `i` on, over the index of those before.
unfoldable pub label_index : ℕ → List BasicBlock → Map String ℕ → Map String ℕ
label_index i [] m = m
label_index i (b ∷ blocks) m =
    label_index (suc i) blocks (if b.label == "" then m else insert b.label i m)

unfoldable pub add_target : Option ℕ → BasicBlock → BasicBlock
add_target none b = record b { has_external_jump = true }
add_target (some j) b = record b { successors = b.successors ++ j ∷ [] }

-- The edge of block `i` of `n` to the next one.
unfoldable pub add_next : ℕ → ℕ → BasicBlock → BasicBlock
add_next n i b =
    if ltb (i + 1) n && (not b.ends_with_terminal && not b.ends_with_unconditional_jump)
    then record b { successors = b.successors ++ (i + 1) ∷ [] }
    else b

unfoldable pub add_edges : Map String ℕ → ℕ → ℕ → BasicBlock → BasicBlock
unfolding add_target add_next
add_edges index n i b =
    if b.jump_target == ""
    then add_next n i b
    else add_target (index b.jump_target) (add_next n i b)

unfoldable pub add_all_edges : Map String ℕ → ℕ → ℕ → List BasicBlock → List BasicBlock
unfolding add_edges
add_all_edges index n i [] = []
add_all_edges index n i (b ∷ blocks) = add_edges index n i b ∷ add_all_edges index n (suc i) blocks

unfoldable pub split_blocks :
    (String → String)
    → (Char → Bool)
    → (Statement → Bool)
    → InstructionSet
    → List Statement
    → List BasicBlock × Map String ℕ
unfolding split_loop last_block label_index add_all_edges new_block
split_blocks to_upper is_space is_terminal fork sts =
    let blocks =
      last_block (split_loop to_upper is_space is_terminal fork sts [] (new_block true)) in
    let index = label_index 0 blocks empty in (add_all_edges index (length blocks) 0 blocks, index)
