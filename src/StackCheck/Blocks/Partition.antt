-- ===== src/StackCheck/Blocks/Partition.antt =====
-- The statements that blocks hold, and those at which control may enter or leave a block.
pub mod Kinds
pub mod Loop
use Prim.Native.Char.{Char}
use mathlib.Core.Path.{subst}
use mathlib.Core.List.{append-nil, append_assoc}
use geas.Prelude.{
  ℕ, zero, suc, ◌+◌, ◌<◌, ◌≡◌, refl, sym, ap, ◌∙◌, inl, inr, Bool, true, false, not, ◌&&◌, ◌||◌,
  Option, none, some, List, [], ◌∷◌, ◌++◌, String, ltb, if◌then◌else◌, Bool-cases, length, All,
  arith, Map, empty, ◌==◌, string_eq,
}
use geas.Ast.{Expr, literal, label_ref, variable, macro_call, binary, unary, group, LabelDef}
use geas.Ast.Statement.{
  Statement, StatementKind, opcode, label_def, pc_label, instr_macro_call, include, assemble,
  pragma, bytes, comment_only, expr_macro_def, instr_macro_def,
}
use geas.Evm.Op.{Op}
use geas.Evm.Defs.{InstructionSet}
use geas.Evm.InstructionSet.{op_by_name}
use geas.StackCheck.Blocks.{
  BasicBlock, Split, new_block, add_statement, close, start_label, record_target, split_opcode,
  split_label, split_other, split_kind, split_loop, last_block, add_edges, add_target,
  add_all_edges, label_index, split_blocks,
}

abbrev pub statements_of : List BasicBlock → List Statement
statements_of [] = []
statements_of (b ∷ blocks) = b.statements ++ statements_of blocks

statements-append :
    (xs ys : List BasicBlock) → statements_of (xs ++ ys) ≡ statements_of xs ++ statements_of ys
statements-append [] ys = refl
statements-append (b ∷ xs) ys =
    ap (λ l. b.statements ++ l) (statements-append xs ys)
    ∙ sym (append_assoc b.statements (statements_of xs) (statements_of ys))

pub All-snoc {ℓ κ} :
    {A : Type ℓ} (P : A → Type κ) (xs : List A) (a : A) → All P xs → P a → All P (xs ++ a ∷ [])
All-snoc P [] a all p = (p, tt)
All-snoc P (x ∷ xs) a all p = (all.0, All-snoc P xs a all.1 p)

abbrev op_ends : Option Op → Bool
op_ends none = false
op_ends (some o) = (o.term || o.unconditional) || o.jump

module _ (to_upper : String → String) (is_terminal : Statement → Bool) (fork : InstructionSet) where
  -- A jump, an instruction that never goes on, or a call that never returns.
  abbrev pub leaves_kind : StatementKind → Statement → Bool
  leaves_kind (label_def l) st = false
  leaves_kind (opcode op e immediates size) st = op_ends (op_by_name fork (to_upper op))
  leaves_kind _ st = is_terminal st

  abbrev pub leaves : Statement → Bool
  leaves st = leaves_kind st.kind st

  -- A label that is not dotted.
  abbrev pub enters_kind : StatementKind → Bool
  enters_kind (label_def l) = not l.dotted
  enters_kind _ = false

  abbrev pub enters : Statement → Bool
  enters st = enters_kind st.kind

  -- Only the last statement may leave.
  abbrev pub LeavesLast : List Statement → Type 0
  LeavesLast [] = Unit
  LeavesLast (x ∷ []) = Unit
  LeavesLast (x ∷ (y ∷ xs)) = (leaves x ≡ false) × LeavesLast (y ∷ xs)

  -- Only the first statement may enter.
  abbrev pub EntersFirst : List Statement → Type 0
  EntersFirst [] = Unit
  EntersFirst (x ∷ xs) = All (λ y. enters y ≡ false) xs

  abbrev pub IsBasic : BasicBlock → Type 0
  IsBasic b = (0 < length b.statements) × LeavesLast b.statements × EntersFirst b.statements

  -- The current block goes on.
  abbrev pub IsOpen : List Statement → Type 0
  IsOpen xs = All (λ x. leaves x ≡ false) xs × EntersFirst xs

  abbrev pub Good : Split → Type 0
  Good (blocks, cur) = All IsBasic blocks × IsOpen cur.statements

  abbrev pub held : Split → List Statement
  held (blocks, cur) = statements_of blocks ++ cur.statements

  LeavesLast-snoc :
      (xs : List Statement) (st : Statement)
      → All (λ x. leaves x ≡ false) xs
      → LeavesLast (xs ++ st ∷ [])
  LeavesLast-snoc [] st all = tt
  LeavesLast-snoc (x ∷ []) st all = (all.0, tt)
  LeavesLast-snoc (x ∷ (y ∷ xs)) st all = (all.0, LeavesLast-snoc (y ∷ xs) st all.1)

  LeavesLast-All : (xs : List Statement) → All (λ x. leaves x ≡ false) xs → LeavesLast xs
  LeavesLast-All [] all = tt
  LeavesLast-All (x ∷ []) all = tt
  LeavesLast-All (x ∷ (y ∷ xs)) all = (all.0, LeavesLast-All (y ∷ xs) all.1)

  EntersFirst-snoc :
      (xs : List Statement) (st : Statement)
      → EntersFirst xs
      → enters st ≡ false
      → EntersFirst (xs ++ st ∷ [])
  EntersFirst-snoc [] st all e = tt
  EntersFirst-snoc (x ∷ xs) st all e = All-snoc _ xs st all e

  EntersFirst-first :
      (xs : List Statement) (st : Statement)
      → ltb 0 (length xs) ≡ false
      → EntersFirst (xs ++ st ∷ [])
  EntersFirst-first [] st h = tt
  EntersFirst-first (x ∷ xs) st h = absurd (ground arith)

  snoc_pos : (xs : List Statement) (st : Statement) → 0 < length (xs ++ st ∷ [])
  snoc_pos [] st = omega arith
  snoc_pos (x ∷ xs) st = omega arith

  -- What a step does: it keeps the invariant and takes one statement.
  abbrev pub Took : Statement → Split → Split → Type 0
  Took st s s' = Good s' × (held s' ≡ held s ++ st ∷ [])

  goes_on :
      (st : Statement) (blocks : List BasicBlock) (cur next : BasicBlock)
      → Good (blocks, cur)
      → leaves st ≡ false
      → EntersFirst (cur.statements ++ st ∷ [])
      → next.statements ≡ cur.statements ++ st ∷ []
      → Took st (blocks, cur) (blocks, next)
  goes_on st blocks cur next good stays enter e =
      subst
        (λ ns.
          (All IsBasic blocks × IsOpen ns)
          × (statements_of blocks ++ ns ≡ held (blocks, cur) ++ st ∷ []))
        (sym e)
        (
          (good.0, (All-snoc (λ x. leaves x ≡ false) cur.statements st good.1.0 stays, enter)),
          sym (append_assoc (statements_of blocks) cur.statements (st ∷ [])),
        )

  IsBasic-end :
      (st : Statement) (cur next : BasicBlock)
      → IsOpen cur.statements
      → EntersFirst (cur.statements ++ st ∷ [])
      → next.statements ≡ cur.statements ++ st ∷ []
      → IsBasic next
  IsBasic-end st cur next open_cur enter e =
      subst (λ ns. (0 < length ns) × LeavesLast ns × EntersFirst ns) (sym e)
        (snoc_pos cur.statements st, LeavesLast-snoc cur.statements st open_cur.0, enter)

  closes :
      (st : Statement) (b : Bool) (blocks : List BasicBlock) (cur next : BasicBlock)
      → Good (blocks, cur)
      → EntersFirst (cur.statements ++ st ∷ [])
      → next.statements ≡ cur.statements ++ st ∷ []
      → Took st (blocks, cur) (close b blocks next)
  unfolding close new_block
  closes st b blocks cur next good enter e = (
    (All-snoc IsBasic blocks next good.0 (IsBasic-end st cur next good.1 enter e), (tt, tt)),
    append-nil (statements_of (blocks ++ next ∷ []))
        ∙ statements-append blocks (next ∷ [])
        ∙ ap (λ l. statements_of blocks ++ l) (append-nil next.statements ∙ e)
        ∙ sym (append_assoc (statements_of blocks) cur.statements (st ∷ [])),
  )
