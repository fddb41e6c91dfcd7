-- ===== src/StackCheck/Blocks/Partition/Loop.antt =====
-- The loop of splitBlocks keeps the invariant of the blocks and of the current one.
use Prim.Native.Char.{Char}
use mathlib.Core.List.{append-nil, append_assoc}
use geas.Prelude.{
  ◌≡◌, refl, sym, ap, ◌∙◌, inl, inr, Bool, false, List, [], ◌∷◌, ◌++◌, String, ltb, Bool-cases,
  length, All, arith, string_eq,
}
use geas.Ast.Statement.{
  Statement, StatementKind, opcode, label_def, pc_label, instr_macro_call, include, assemble,
  pragma, bytes, comment_only, expr_macro_def, instr_macro_def,
}
use geas.Evm.Defs.{InstructionSet}
use geas.Evm.InstructionSet.{op_by_name}
use geas.StackCheck.Blocks.{BasicBlock, Split, split_kind, split_loop, last_block}
use geas.StackCheck.Blocks.Partition.{
  statements_of, enters_kind, IsBasic, held, LeavesLast-All, All-snoc, statements-append,
}
use geas.StackCheck.Blocks.Partition.Kinds.{
  Fine, Takes, leaves_of, split_other-Took, split_opcode-Took, split_label-Took,
}

pub no_statement : (xs : List Statement) → ltb 0 (length xs) ≡ false → xs ≡ []
no_statement [] h = refl
no_statement (x ∷ xs) h = absurd (ground arith)

module _ (to_upper : String → String) (is_space : Char → Bool) (is_terminal : Statement → Bool)
    (fork : InstructionSet) where
  split_kind-Took :
      (k : StatementKind) (st : Statement) (blocks : List BasicBlock) (cur : BasicBlock)
      → st.kind ≡ k
      → Fine to_upper is_space is_terminal fork (blocks, cur)
      → Takes to_upper is_space is_terminal fork st
          (blocks, cur)
          (split_kind to_upper is_space is_terminal fork k st blocks cur)
  unfolding split_kind
  split_kind-Took (label_def d) st blocks cur e good =
      split_label-Took to_upper is_space is_terminal fork d st blocks cur good
        (ap (leaves_of to_upper is_space is_terminal fork st) e)
        (ap (enters_kind to_upper is_terminal fork) e)
  split_kind-Took (opcode op a immediates size) st blocks cur e good =
      split_opcode-Took to_upper is_space is_terminal fork (op_by_name fork (to_upper op)) st a
        blocks cur good (ap (leaves_of to_upper is_space is_terminal fork st) e)
        (ap (enters_kind to_upper is_terminal fork) e)
  split_kind-Took (pc_label pc text) st blocks cur e good =
      split_other-Took to_upper is_space is_terminal fork st blocks cur good
        (ap (leaves_of to_upper is_space is_terminal fork st) e)
        (ap (enters_kind to_upper is_terminal fork) e)
  split_kind-Took (instr_macro_call ident args) st blocks cur e good =
      split_other-Took to_upper is_space is_terminal fork st blocks cur good
        (ap (leaves_of to_upper is_space is_terminal fork st) e)
        (ap (enters_kind to_upper is_terminal fork) e)
  split_kind-Took (include number file) st blocks cur e good =
      split_other-Took to_upper is_space is_terminal fork st blocks cur good
        (ap (leaves_of to_upper is_space is_terminal fork st) e)
        (ap (enters_kind to_upper is_terminal fork) e)
  split_kind-Took (assemble file) st blocks cur e good =
      split_other-Took to_upper is_space is_terminal fork st blocks cur good
        (ap (leaves_of to_upper is_space is_terminal fork st) e)
        (ap (enters_kind to_upper is_terminal fork) e)
  split_kind-Took (pragma option value) st blocks cur e good =
      split_other-Took to_upper is_space is_terminal fork st blocks cur good
        (ap (leaves_of to_upper is_space is_terminal fork st) e)
        (ap (enters_kind to_upper is_terminal fork) e)
  split_kind-Took (bytes value label) st blocks cur e good =
      split_other-Took to_upper is_space is_terminal fork st blocks cur good
        (ap (leaves_of to_upper is_space is_terminal fork st) e)
        (ap (enters_kind to_upper is_terminal fork) e)
  split_kind-Took (comment_only text) st blocks cur e good =
      split_other-Took to_upper is_space is_terminal fork st blocks cur good
        (ap (leaves_of to_upper is_space is_terminal fork st) e)
        (ap (enters_kind to_upper is_terminal fork) e)
  split_kind-Took (expr_macro_def def) st blocks cur e good =
      split_other-Took to_upper is_space is_terminal fork st blocks cur good
        (ap (leaves_of to_upper is_space is_terminal fork st) e)
        (ap (enters_kind to_upper is_terminal fork) e)
  split_kind-Took (instr_macro_def def) st blocks cur e good =
      split_other-Took to_upper is_space is_terminal fork st blocks cur good
        (ap (leaves_of to_upper is_space is_terminal fork st) e)
        (ap (enters_kind to_upper is_terminal fork) e)

  pub split_loop-Took :
      (sts : List Statement) (blocks : List BasicBlock) (cur : BasicBlock)
      → Fine to_upper is_space is_terminal fork (blocks, cur)
      → Fine to_upper is_space is_terminal fork
          (split_loop to_upper is_space is_terminal fork sts blocks cur)
        × (held to_upper is_terminal fork
              (split_loop to_upper is_space is_terminal fork sts blocks cur)
            ≡ held to_upper is_terminal fork (blocks, cur) ++ sts)
  unfolding split_loop
  split_loop-Took [] blocks cur good = (good, sym (append-nil _))
  split_loop-Took (st ∷ sts) blocks cur good =
      let took = split_kind-Took st.kind st blocks cur refl good in
      let next = split_kind to_upper is_space is_terminal fork st.kind st blocks cur in
      let rest = split_loop-Took sts next.0 next.1 took.0 in
      (
        rest.0,
        rest.1
            ∙ ap (λ l. l ++ sts) took.1
            ∙ append_assoc (held to_upper is_terminal fork (blocks, cur)) (st ∷ []) sts,
      )

  pub last_block-Good :
      (s : Split)
      → Fine to_upper is_space is_terminal fork s
      → All (IsBasic to_upper is_terminal fork) (last_block s)
        × (statements_of (last_block s) ≡ held to_upper is_terminal fork s)
  unfolding last_block
  last_block-Good (blocks, cur) good = elim (Bool-cases (ltb 0 (length cur.statements))) [
    | inl k ↦ rw k (
      All-snoc _ blocks cur good.0 (
        (ground arith),
        LeavesLast-All to_upper is_terminal fork cur.statements good.1.0,
        good.1.1,
      ),
      statements-append blocks (cur ∷ [])
          ∙ ap (λ xs. statements_of blocks ++ xs) (append-nil cur.statements),
    )
    | inr k ↦ rw k (
      good.0,
      sym (ap (λ xs. statements_of blocks ++ xs) (no_statement cur.statements k) ∙ append-nil _),
    )
  ]
