-- ===== src/StackCheck/Blocks/Labels.antt =====
-- The label of a block is that of its first statement.
use Prim.Native.Char.{Char}
use geas.Prelude.{
  ◌≡◌, refl, ap, ◌⊎◌, inl, inr, Bool, true, false, not, ◌&&◌, ◌||◌, Option, none, some, List, [],
  ◌∷◌, ◌++◌, String, ltb, Bool-cases, length, All, string_eq,
}
use geas.Ast.{Expr, literal, label_ref, variable, macro_call, binary, unary, group, LabelDef}
use geas.Ast.Statement.{
  Statement, StatementKind, opcode, label_def, pc_label, instr_macro_call, include, assemble,
  pragma, bytes, comment_only, expr_macro_def, instr_macro_def,
}
use geas.Evm.Op.{Op}
use geas.Evm.Defs.{InstructionSet}
use geas.Evm.InstructionSet.{op_by_name}
use geas.StackCheck.Blocks.{
  BasicBlock, Split, new_block, add_statement, close, start_label, record_target, split_opcode,
  split_label, split_other, split_kind, split_loop, last_block, stack_comment_of,
}
use geas.StackCheck.Blocks.Partition.{All-snoc}
use geas.StackCheck.Blocks.Partition.Loop.{no_statement}

-- The first statement is the definition of the label, which is not dotted.
abbrev pub StartsWith : String → List Statement → Type 0
StartsWith name sts =
    (st : Statement) × (rest : List Statement) × (d : LabelDef) × (sts ≡ st ∷ rest)
    × (st.kind ≡ label_def d)
    × (d.ident ≡ name)
    × (d.dotted ≡ false)

-- A block without label has the empty text.
abbrev pub IsLabelled : BasicBlock → Type 0
IsLabelled b = (b.label ≡ "") ⊎ StartsWith b.label b.statements

abbrev AreLabelled : Split → Type 0
AreLabelled (blocks, cur) = All IsLabelled blocks × IsLabelled cur

add_statement-IsLabelled :
    (st : Statement) (b : BasicBlock) → IsLabelled b → IsLabelled (add_statement st b)
unfolding add_statement
add_statement-IsLabelled st b (inl e) = inl e
add_statement-IsLabelled st b (inr (first, rest, d, e, k, i, f)) =
    inr (first, rest ++ st ∷ [], d, ap (λ xs. xs ++ st ∷ []) e, k, i, f)

record_target-IsLabelled :
    (st : Statement) (e : Option Expr) (b : BasicBlock)
    → IsLabelled b
    → IsLabelled (record_target st e b)
unfolding record_target
record_target-IsLabelled st none b h = h
record_target-IsLabelled st (some (label_ref ident true)) b h = h
record_target-IsLabelled st (some (label_ref ident false)) b h = h
record_target-IsLabelled st (some (literal text v is_string)) b h = h
record_target-IsLabelled st (some (variable ident)) b h = h
record_target-IsLabelled st (some (macro_call call ident builtin args)) b h = h
record_target-IsLabelled st (some (binary op l r)) b h = h
record_target-IsLabelled st (some (unary op e)) b h = h
record_target-IsLabelled st (some (group e)) b h = h

close-AreLabelled :
    (b : Bool) (blocks : List BasicBlock) (cur : BasicBlock)
    → All IsLabelled blocks
    → IsLabelled cur
    → AreLabelled (close b blocks cur)
unfolding close new_block
close-AreLabelled b blocks cur all h = (All-snoc IsLabelled blocks cur all h, inl refl)

split_opcode-AreLabelled :
    (o : Option Op) (st : Statement) (e : Option Expr) (blocks : List BasicBlock) (cur : BasicBlock)
    → AreLabelled (blocks, cur)
    → AreLabelled (split_opcode o st e blocks cur)
unfolding split_opcode
split_opcode-AreLabelled none st e blocks cur h = h
split_opcode-AreLabelled (some o) st e blocks cur (all, this) =
    let target = record_target-IsLabelled st e cur this in
    elim (Bool-cases (o.term || o.unconditional)) [
      | inl h ↦ elim (Bool-cases o.jump) [
        | inl j ↦ rw (h, j) (close-AreLabelled false blocks _ all target)
        | inr j ↦ rw (h, j) (close-AreLabelled false blocks _ all this)
      ]
      | inr h ↦ elim (Bool-cases o.jump) [
        | inl j ↦ rw (h, j) (close-AreLabelled true blocks _ all target)
        | inr j ↦ rw (h, j) (all, this)
      ]
    ]

-- The label of a block that has no statement yet.
start_label-IsLabelled :
    (comment : Option String) (d : LabelDef) (st : Statement) (b : BasicBlock)
    → ltb 0 (length b.statements) ≡ false
    → st.kind ≡ label_def d
    → d.dotted ≡ false
    → IsLabelled (start_label comment d st b)
unfolding start_label add_statement
start_label-IsLabelled comment d st b e k f =
    inr (st, [], d, ap (λ xs. xs ++ st ∷ []) (no_statement b.statements e), k, refl, f)

module _ (to_upper : String → String) (is_space : Char → Bool) (is_terminal : Statement → Bool)
    (fork : InstructionSet) where
  split_other-AreLabelled :
      (st : Statement) (blocks : List BasicBlock) (cur : BasicBlock)
      → AreLabelled (blocks, cur)
      → AreLabelled (split_other to_upper is_space is_terminal fork st blocks cur)
  unfolding split_other
  split_other-AreLabelled st blocks cur (all, this) =
      let more = add_statement-IsLabelled st cur this in
      elim (Bool-cases (is_terminal st)) [
        | inl h ↦ rw h (close-AreLabelled false blocks _ all more)
        | inr h ↦ rw h (all, more)
      ]

  split_label-AreLabelled :
      (d : LabelDef) (st : Statement) (blocks : List BasicBlock) (cur : BasicBlock)
      → st.kind ≡ label_def d
      → AreLabelled (blocks, cur)
      → AreLabelled (split_label to_upper is_space is_terminal fork d st blocks cur)
  unfolding split_label new_block
  split_label-AreLabelled d st blocks cur k (all, this) = elim (Bool-cases d.dotted) [
    | inl h ↦ rw h (all, add_statement-IsLabelled st cur this)
    | inr h ↦ elim (Bool-cases (ltb 0 (length cur.statements))) [
      | inl e ↦
          rw (h, e)
            (
              All-snoc IsLabelled blocks cur all this,
              start_label-IsLabelled (stack_comment_of is_space st none) d st
                  (new_block (not cur.ends_with_terminal && not cur.ends_with_unconditional_jump))
                  refl k h,
            )
      | inr e ↦
          rw (h, e)
            (
              all,
              start_label-IsLabelled (stack_comment_of is_space st cur.label_comment) d st cur e k
                  h,
            )
    ]
  ]

  split_kind-AreLabelled :
      (k : StatementKind) (st : Statement) (blocks : List BasicBlock) (cur : BasicBlock)
      → st.kind ≡ k
      → AreLabelled (blocks, cur)
      → AreLabelled (split_kind to_upper is_space is_terminal fork k st blocks cur)
  unfolding split_kind
  split_kind-AreLabelled (label_def d) st blocks cur k h =
      split_label-AreLabelled d st blocks cur k h
  split_kind-AreLabelled (opcode op e immediates size) st blocks cur k (all, this) =
      split_opcode-AreLabelled (op_by_name fork (to_upper op)) st e blocks (add_statement st cur)
        (all, add_statement-IsLabelled st cur this)
  split_kind-AreLabelled (pc_label pc text) st blocks cur k h =
      split_other-AreLabelled st blocks cur h
  split_kind-AreLabelled (instr_macro_call ident args) st blocks cur k h =
      split_other-AreLabelled st blocks cur h
  split_kind-AreLabelled (include number file) st blocks cur k h =
      split_other-AreLabelled st blocks cur h
  split_kind-AreLabelled (assemble file) st blocks cur k h = split_other-AreLabelled st blocks cur h
  split_kind-AreLabelled (pragma option value) st blocks cur k h =
      split_other-AreLabelled st blocks cur h
  split_kind-AreLabelled (bytes value label) st blocks cur k h =
      split_other-AreLabelled st blocks cur h
  split_kind-AreLabelled (comment_only text) st blocks cur k h =
      split_other-AreLabelled st blocks cur h
  split_kind-AreLabelled (expr_macro_def def) st blocks cur k h =
      split_other-AreLabelled st blocks cur h
  split_kind-AreLabelled (instr_macro_def def) st blocks cur k h =
      split_other-AreLabelled st blocks cur h

  pub split_loop-AreLabelled :
      (sts : List Statement) (blocks : List BasicBlock) (cur : BasicBlock)
      → AreLabelled (blocks, cur)
      → AreLabelled (split_loop to_upper is_space is_terminal fork sts blocks cur)
  unfolding split_loop
  split_loop-AreLabelled [] blocks cur h = h
  split_loop-AreLabelled (st ∷ sts) blocks cur h =
      let next = split_kind to_upper is_space is_terminal fork st.kind st blocks cur in
      split_loop-AreLabelled sts next.0 next.1 (split_kind-AreLabelled st.kind st blocks cur refl h)

pub last_block-IsLabelled : (s : Split) → AreLabelled s → All IsLabelled (last_block s)
unfolding last_block
last_block-IsLabelled (blocks, cur) h = elim (Bool-cases (ltb 0 (length cur.statements))) [
  | inl k ↦ rw k (All-snoc IsLabelled blocks cur h.0 h.1)
  | inr k ↦ rw k h.0
]
