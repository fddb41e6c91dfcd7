-- ===== src/StackCheck/Blocks/Successors.antt =====
-- The numbers among the successors of the blocks.
use Prim.Native.Char.{Char}
use mathlib.Core.Path.{subst}
use geas.Prelude.{
  ℕ, suc, ◌+◌, ◌<◌, ◌≡◌, refl, sym, ap, ◌∙◌, inl, inr, Bool, true, false, not, ◌&&◌, ◌||◌, Option,
  none, some, List, [], ◌∷◌, String, ltb, Bool-cases, length, All, arith, Map, empty, ◌==◌,
  string_eq, lt_of_get_elem?,
}
use geas.Ast.{Expr, literal, label_ref, variable, macro_call, binary, unary, group, LabelDef}
use geas.Ast.Statement.{
  Statement, StatementKind, opcode, label_def, pc_label, instr_macro_call, include, assemble,
  pragma, bytes, comment_only, expr_macro_def, instr_macro_def,
}
use geas.Evm.Op.{Op}
use geas.Evm.Defs.{InstructionSet}
use geas.Evm.InstructionSet.{op_by_name}
use geas.StackCheck.Blocks.{
  BasicBlock, Split, new_block, add_statement, close, start_label, record_target, split_opcode,
  split_label, split_other, split_kind, split_loop, last_block, add_edges, add_next, add_target,
  add_all_edges, label_index, split_blocks,
}
use geas.StackCheck.Blocks.Partition.{All-snoc}
use geas.StackCheck.Blocks.Edges.{label_index-entry}

abbrev HasNoEdge : BasicBlock → Type 0
HasNoEdge b = b.successors ≡ []

abbrev Fresh : Split → Type 0
Fresh (blocks, cur) = All HasNoEdge blocks × HasNoEdge cur

record_target-HasNoEdge :
    (st : Statement) (e : Option Expr) (b : BasicBlock)
    → HasNoEdge b
    → HasNoEdge (record_target st e b)
unfolding record_target
record_target-HasNoEdge st none b h = h
record_target-HasNoEdge st (some (label_ref ident true)) b h = h
record_target-HasNoEdge st (some (label_ref ident false)) b h = h
record_target-HasNoEdge st (some (literal text v is_string)) b h = h
record_target-HasNoEdge st (some (variable ident)) b h = h
record_target-HasNoEdge st (some (macro_call call ident builtin args)) b h = h
record_target-HasNoEdge st (some (binary op l r)) b h = h
record_target-HasNoEdge st (some (unary op e)) b h = h
record_target-HasNoEdge st (some (group e)) b h = h

close-Fresh :
    (b : Bool) (blocks : List BasicBlock) (cur : BasicBlock)
    → All HasNoEdge blocks
    → HasNoEdge cur
    → Fresh (close b blocks cur)
unfolding close new_block
close-Fresh b blocks cur all h = (All-snoc HasNoEdge blocks cur all h, refl)

split_opcode-Fresh :
    (o : Option Op) (st : Statement) (e : Option Expr) (blocks : List BasicBlock) (cur : BasicBlock)
    → Fresh (blocks, cur)
    → Fresh (split_opcode o st e blocks cur)
unfolding split_opcode
split_opcode-Fresh none st e blocks cur fresh = fresh
split_opcode-Fresh (some o) st e blocks cur fresh =
    let target = record_target-HasNoEdge st e cur fresh.1 in
    elim (Bool-cases (o.term || o.unconditional)) [
      | inl h ↦ elim (Bool-cases o.jump) [
        | inl j ↦ rw (h, j) (close-Fresh false blocks _ fresh.0 target)
        | inr j ↦ rw (h, j) (close-Fresh false blocks _ fresh.0 fresh.1)
      ]
      | inr h ↦ elim (Bool-cases o.jump) [
        | inl j ↦ rw (h, j) (close-Fresh true blocks _ fresh.0 target)
        | inr j ↦ rw (h, j) fresh
      ]
    ]

module _ (to_upper : String → String) (is_space : Char → Bool) (is_terminal : Statement → Bool)
    (fork : InstructionSet) where
  split_other-Fresh :
      (st : Statement) (blocks : List BasicBlock) (cur : BasicBlock)
      → Fresh (blocks, cur)
      → Fresh (split_other to_upper is_space is_terminal fork st blocks cur)
  unfolding split_other add_statement
  split_other-Fresh st blocks cur fresh = elim (Bool-cases (is_terminal st)) [
    | inl h ↦ rw h (close-Fresh false blocks _ fresh.0 fresh.1)
    | inr h ↦ rw h fresh
  ]

  split_label-Fresh :
      (d : LabelDef) (st : Statement) (blocks : List BasicBlock) (cur : BasicBlock)
      → Fresh (blocks, cur)
      → Fresh (split_label to_upper is_space is_terminal fork d st blocks cur)
  unfolding split_label add_statement start_label new_block
  split_label-Fresh d st blocks cur fresh = elim (Bool-cases d.dotted) [
    | inl h ↦ rw h fresh
    | inr h ↦ elim (Bool-cases (ltb 0 (length cur.statements))) [
      | inl k ↦ rw (h, k) (All-snoc HasNoEdge blocks cur fresh.0 fresh.1, refl)
      | inr k ↦ rw (h, k) fresh
    ]
  ]

  split_kind-Fresh :
      (k : StatementKind) (st : Statement) (blocks : List BasicBlock) (cur : BasicBlock)
      → Fresh (blocks, cur)
      → Fresh (split_kind to_upper is_space is_terminal fork k st blocks cur)
  unfolding split_kind add_statement
  split_kind-Fresh (label_def d) st blocks cur fresh = split_label-Fresh d st blocks cur fresh
  split_kind-Fresh (opcode op e immediates size) st blocks cur fresh =
      split_opcode-Fresh (op_by_name fork (to_upper op)) st e blocks (add_statement st cur) fresh
  split_kind-Fresh (pc_label pc text) st blocks cur fresh = split_other-Fresh st blocks cur fresh
  split_kind-Fresh (instr_macro_call ident args) st blocks cur fresh =
      split_other-Fresh st blocks cur fresh
  split_kind-Fresh (include number file) st blocks cur fresh = split_other-Fresh st blocks cur fresh
  split_kind-Fresh (assemble file) st blocks cur fresh = split_other-Fresh st blocks cur fresh
  split_kind-Fresh (pragma option value) st blocks cur fresh = split_other-Fresh st blocks cur fresh
  split_kind-Fresh (bytes value label) st blocks cur fresh = split_other-Fresh st blocks cur fresh
  split_kind-Fresh (comment_only text) st blocks cur fresh = split_other-Fresh st blocks cur fresh
  split_kind-Fresh (expr_macro_def def) st blocks cur fresh = split_other-Fresh st blocks cur fresh
  split_kind-Fresh (instr_macro_def def) st blocks cur fresh = split_other-Fresh st blocks cur fresh

  split_loop-Fresh :
      (sts : List Statement) (blocks : List BasicBlock) (cur : BasicBlock)
      → Fresh (blocks, cur)
      → Fresh (split_loop to_upper is_space is_terminal fork sts blocks cur)
  unfolding split_loop
  split_loop-Fresh [] blocks cur fresh = fresh
  split_loop-Fresh (st ∷ sts) blocks cur fresh =
      let next = split_kind to_upper is_space is_terminal fork st.kind st blocks cur in
      split_loop-Fresh sts next.0 next.1 (split_kind-Fresh st.kind st blocks cur fresh)

last_block-HasNoEdge : (s : Split) → Fresh s → All HasNoEdge (last_block s)
unfolding last_block
last_block-HasNoEdge (blocks, cur) fresh = elim (Bool-cases (ltb 0 (length cur.statements))) [
  | inl k ↦ rw k (All-snoc HasNoEdge blocks cur fresh.0 fresh.1)
  | inr k ↦ rw k fresh.0
]

abbrev pub AreBelow : ℕ → List ℕ → Type 0
AreBelow n = All (λ j. j < n)

-- An index that has numbers below `n` only.
abbrev IsIndex : ℕ → Map String ℕ → Type 0
IsIndex n index = (name : String) (j : ℕ) → index name ≡ some j → j < n

add_target-AreBelow :
    (n : ℕ) (o : Option ℕ) (b : BasicBlock)
    → ((j : ℕ) → o ≡ some j → j < n)
    → AreBelow n b.successors
    → AreBelow n (add_target o b).successors
unfolding add_target
add_target-AreBelow n none b h all = all
add_target-AreBelow n (some j) b h all = All-snoc (λ k. k < n) b.successors j all (h j refl)

add_next-AreBelow :
    (n i : ℕ) (b : BasicBlock) → HasNoEdge b → AreBelow n (add_next n i b).successors
unfolding add_next
add_next-AreBelow n i b e =
    let none_yet : AreBelow n b.successors = subst (AreBelow n) (sym e) tt in
    elim (Bool-cases
      (ltb (i + 1) n && (not b.ends_with_terminal && not b.ends_with_unconditional_jump))) [
        | inl h ↦ rw h (All-snoc (λ k. k < n) b.successors (i + 1) none_yet (ground arith))
        | inr h ↦ rw h none_yet
      ]

add_edges-AreBelow :
    (index : Map String ℕ) (n i : ℕ) (b : BasicBlock)
    → IsIndex n index
    → HasNoEdge b
    → AreBelow n (add_edges index n i b).successors
unfolding add_edges
add_edges-AreBelow index n i b h e = elim (Bool-cases (b.jump_target == "")) [
  | inl f ↦ rw f (add_next-AreBelow n i b e)
  | inr f ↦ rw f (
      add_target-AreBelow n (index b.jump_target) (add_next n i b) (h b.jump_target)
        (add_next-AreBelow n i b e))
]

add_all_edges-AreBelow :
    (index : Map String ℕ) (n i : ℕ) (blocks : List BasicBlock)
    → IsIndex n index
    → All HasNoEdge blocks
    → All (λ b. AreBelow n b.successors) (add_all_edges index n i blocks)
unfolding add_all_edges
add_all_edges-AreBelow index n i [] h all = tt
add_all_edges-AreBelow index n i (b ∷ blocks) h all =
    (add_edges-AreBelow index n i b h all.0, add_all_edges-AreBelow index n (suc i) blocks h all.1)

length-add_all_edges :
    (index : Map String ℕ) (n i : ℕ) (blocks : List BasicBlock)
    → length (add_all_edges index n i blocks) ≡ length blocks
unfolding add_all_edges
length-add_all_edges index n i [] = refl
length-add_all_edges index n i (b ∷ blocks) = ap suc (length-add_all_edges index n (suc i) blocks)

label_index-IsIndex :
    (blocks : List BasicBlock) → IsIndex (length blocks) (label_index 0 blocks empty)
label_index-IsIndex blocks name j h = elim (label_index-entry 0 blocks empty name j h) [
  | inl e ↦ cc
  | inr (k, b, e, g, l, f) ↦ omega (arith, lt_of_get_elem? blocks k b g)
]

with_edges-AreBelow :
    (blocks : List BasicBlock)
    → All HasNoEdge blocks
    → (n : ℕ) → length (add_all_edges (label_index 0 blocks empty) (length blocks) 0 blocks) ≡ n
    → All
        (λ b. AreBelow n b.successors)
        (add_all_edges (label_index 0 blocks empty) (length blocks) 0 blocks)
with_edges-AreBelow blocks all n e =
    subst
      (λ m.
        All (λ b. AreBelow m b.successors)
          (add_all_edges (label_index 0 blocks empty) (length blocks) 0 blocks))
      (sym (length-add_all_edges _ _ 0 blocks) ∙ e)
      (add_all_edges-AreBelow _ (length blocks) 0 blocks (label_index-IsIndex blocks) all)

-- The successors of every block that splitBlocks returns are numbers of blocks.
pub split_blocks-successors :
    (to_upper : String → String) (is_space : Char → Bool) (is_terminal : Statement → Bool)
    (fork : InstructionSet) (sts : List Statement)
    → All
        (λ b.
          AreBelow (length (split_blocks to_upper is_space is_terminal fork sts).0) b.successors)
        (split_blocks to_upper is_space is_terminal fork sts).0
unfolding split_blocks new_block
split_blocks-successors to_upper is_space is_terminal fork sts =
    let s = split_loop to_upper is_space is_terminal fork sts [] (new_block true) in
    let fresh =
      split_loop-Fresh to_upper is_space is_terminal fork sts [] (new_block true) (tt, refl) in
    with_edges-AreBelow (last_block s) (last_block-HasNoEdge s fresh) _ refl
