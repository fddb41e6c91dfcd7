-- ===== src/StackCheck/Blocks/Edges.antt =====
-- The blocks of splitBlocks, with their edges, and the index of their labels.
use Prim.Native.Char.{Char}
use mathlib.Core.Path.{subst}
use geas.Prelude.{
  ℕ, zero, suc, ◌+◌, ◌≡◌, refl, sym, false, ap, ◌∙◌, ◌⊎◌, inl, inr, Bool, true, Option, none, some,
  List, [], ◌∷◌, String, Bool-cases, All, arith, Map, empty, get_elem?, ◌==◌, string_eq, eq_iff,
}
use geas.Ast.Statement.{Statement}
use geas.Evm.Defs.{InstructionSet}
use geas.StackCheck.Blocks.{
  BasicBlock, new_block, split_loop, last_block, add_edges, add_next, add_target, add_all_edges,
  label_index, split_blocks,
}
use geas.StackCheck.Blocks.Labels.{
  StartsWith, IsLabelled, split_loop-AreLabelled, last_block-IsLabelled,
}
use geas.StackCheck.Blocks.Partition.{statements_of, IsBasic}
use geas.StackCheck.Blocks.Partition.Loop.{split_loop-Took, last_block-Good}

-- What the edges leave as it was.
record IsSame (b b' : BasicBlock) : Type 0 where
  same_statements : b.statements ≡ b'.statements
  same_label : b.label ≡ b'.label

add_target-IsSame : (o : Option ℕ) (b : BasicBlock) → IsSame (add_target o b) b
unfolding add_target
add_target-IsSame none b = record { same_statements = refl; same_label = refl }
add_target-IsSame (some j) b = record { same_statements = refl; same_label = refl }

add_edges-IsSame :
    (index : Map String ℕ) (n i : ℕ) (b : BasicBlock) → IsSame (add_edges index n i b) b
unfolding add_edges add_target add_next
add_edges-IsSame index n i b = ground arith

module _ (index : Map String ℕ) (n : ℕ) where
  add_all_edges-statements :
      (i : ℕ) (blocks : List BasicBlock)
      → statements_of (add_all_edges index n i blocks) ≡ statements_of blocks
  unfolding add_all_edges
  add_all_edges-statements i [] = refl
  add_all_edges-statements i (b ∷ blocks) =
      rw ((add_edges-IsSame index n i b).same_statements, add_all_edges-statements (suc i) blocks)
        refl

  add_all_edges-IsBasic :
      (to_upper : String → String) (is_terminal : Statement → Bool) (fork : InstructionSet) (i : ℕ)
      (blocks : List BasicBlock)
      → All (IsBasic to_upper is_terminal fork) blocks
      → All (IsBasic to_upper is_terminal fork) (add_all_edges index n i blocks)
  unfolding add_all_edges
  add_all_edges-IsBasic to_upper is_terminal fork i [] all = tt
  add_all_edges-IsBasic to_upper is_terminal fork i (b ∷ blocks) all = (
    rw (add_edges-IsSame index n i b).same_statements all.0,
    add_all_edges-IsBasic to_upper is_terminal fork (suc i) blocks all.1,
  )

  add_all_edges-label :
      (i k : ℕ) (blocks : List BasicBlock) (b : BasicBlock)
      → get_elem? blocks k ≡ some b
      → (b' : BasicBlock) × (get_elem? (add_all_edges index n i blocks) k ≡ some b')
        × (b'.label ≡ b.label)
        × (b'.statements ≡ b.statements)
  unfolding add_all_edges
  add_all_edges-label i k [] b h = cc
  add_all_edges-label i zero (x ∷ blocks) b h =
      let same : x ≡ b = ground arith in
      (
        add_edges index n i x,
        refl,
        (add_edges-IsSame index n i x).same_label ∙ ap (λ y. y.label) same,
        (add_edges-IsSame index n i x).same_statements ∙ ap (λ y. y.statements) same,
      )
  add_all_edges-label i (suc k) (x ∷ blocks) b h = add_all_edges-label (suc i) k blocks b h

All-get_elem? :
    (P : BasicBlock → Type 0) (blocks : List BasicBlock) (k : ℕ) (b : BasicBlock)
    → All P blocks
    → get_elem? blocks k ≡ some b
    → P b
All-get_elem? P [] k b all h = absurd (cc h)
All-get_elem? P (x ∷ blocks) zero b all h = let same : x ≡ b = ground arith in subst P same all.0
All-get_elem? P (x ∷ blocks) (suc k) b all h = All-get_elem? P blocks k b all.1 h

StartsWith-label :
    (b : BasicBlock) (name : String)
    → IsLabelled b
    → b.label ≡ name
    → (name == "") ≡ false
    → StartsWith name b.statements
StartsWith-label b name (inl e) l f = absurd (cc (subst (λ n. (n == "") ≡ false) (sym l ∙ e) f))
StartsWith-label b name (inr starts) l f = subst (λ n. StartsWith n b.statements) l starts

-- An entry of the index is one that was there, or the number of a block with the label.
pub label_index-entry :
    (i : ℕ) (blocks : List BasicBlock) (m : Map String ℕ) (name : String) (j : ℕ)
    → label_index i blocks m name ≡ some j
    → (m name ≡ some j)
      ⊎ ((k : ℕ) × (b : BasicBlock) × (j ≡ i + k)
          × (get_elem? blocks k ≡ some b)
          × (b.label ≡ name)
          × ((name == "") ≡ false))
unfolding label_index
label_index-entry i [] m name j h = inl h
label_index-entry i (b ∷ blocks) m name j h = elim (label_index-entry (suc i) blocks _ name j h) [
  | inr (k, c, e, g, l, f) ↦ inr (suc k, c, omega arith, g, l, f)
  | inl e ↦ elim (Bool-cases (b.label == "")) [
    | inl f ↦ inl (ground (arith, e, f))
    | inr f ↦ elim (Bool-cases (b.label == name)) [
      | inl g ↦
          let same = (eq_iff b.label name).0 g in
          inr (0, b, ground (arith, e, f, g), refl, same, sym (ap (λ l. l == "") same) ∙ f)
      | inr g ↦ inl (ground (arith, e, f, g))
    ]
  ]
]

index_finds :
    (blocks : List BasicBlock) (index : Map String ℕ) (n : ℕ) (name : String) (j : ℕ)
    → All IsLabelled blocks
    → label_index 0 blocks empty name ≡ some j
    → (b : BasicBlock) × (get_elem? (add_all_edges index n 0 blocks) j ≡ some b)
      × (b.label ≡ name)
      × StartsWith name b.statements
index_finds blocks index n name j all h = elim (label_index-entry 0 blocks empty name j h) [
  | inl e ↦ absurd (cc)
  | inr (k, b, e, g, l, f) ↦
      let same : j ≡ k = omega arith in
      let (c, at, labelled, statements) = add_all_edges-label index n 0 k blocks b g in
      let starts = StartsWith-label b name (All-get_elem? IsLabelled blocks k b all g) l f in
      (c, rw same at, labelled ∙ l, subst (StartsWith name) (sym statements) starts)
]

module _ (to_upper : String → String) (is_space : Char → Bool) (is_terminal : Statement → Bool)
    (fork : InstructionSet) where
  -- The statements of the blocks, one block after the other, are those of the document. No block is
  -- empty. Only the first statement of a block may be a label that is not dotted, and only the last
  -- one a jump, an instruction that does not go on, or a call that isTerminal reports.
  pub split_blocks-partition :
      (sts : List Statement)
      → (statements_of (split_blocks to_upper is_space is_terminal fork sts).0 ≡ sts)
        × All
            (IsBasic to_upper is_terminal fork)
            (split_blocks to_upper is_space is_terminal fork sts).0
  unfolding split_blocks new_block
  split_blocks-partition sts =
      let start = new_block true in
      let s = split_loop to_upper is_space is_terminal fork sts [] start in
      let loop = split_loop-Took to_upper is_space is_terminal fork sts [] start (tt, (tt, tt)) in
      let (basic, held) = last_block-Good to_upper is_space is_terminal fork s loop.0 in
      (
        add_all_edges-statements _ _ 0 (last_block s) ∙ held ∙ loop.1,
        add_all_edges-IsBasic _ _ to_upper is_terminal fork 0 (last_block s) basic,
      )

  -- The index that splitBlocks returns has for a label only the number of a block that has this label
  -- and whose first statement is a definition of it, which is not dotted.
  pub split_blocks-index :
      (sts : List Statement) (name : String) (j : ℕ)
      → (split_blocks to_upper is_space is_terminal fork sts).1 name ≡ some j
      → (b : BasicBlock) × (get_elem? (split_blocks to_upper is_space is_terminal fork sts).0 j
          ≡ some b)
        × (b.label ≡ name)
        × StartsWith name b.statements
  unfolding split_blocks new_block
  split_blocks-index sts name j h =
      let start = new_block true in
      let s = split_loop to_upper is_space is_terminal fork sts [] start in
      let labelled =
        split_loop-AreLabelled to_upper is_space is_terminal fork sts [] start (tt, inl refl) in
      index_finds (last_block s) _ _ name j (last_block-IsLabelled s labelled) h
