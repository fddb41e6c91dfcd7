-- ===== src/StackCheck/Blocks/Partition/Kinds.antt =====
-- What splitBlocks does with a label, an instruction and any other statement keeps the invariant.
use Prim.Native.Char.{Char}
use mathlib.Core.Path.{subst}
use mathlib.Core.List.{append-nil}
use geas.Prelude.{
  ◌<◌, ◌≡◌, refl, sym, ap, ◌∙◌, inl, inr, Bool, true, false, not, ◌&&◌, ◌||◌, Option, none, some,
  List, [], ◌∷◌, ◌++◌, String, ltb, if◌then◌else◌, Bool-cases, length, All, arith, string_eq,
}
use geas.Ast.{Expr, literal, label_ref, variable, macro_call, binary, unary, group, LabelDef}
use geas.Ast.Statement.{Statement, StatementKind}
use geas.Evm.Op.{Op}
use geas.Evm.Defs.{InstructionSet}
use geas.StackCheck.Blocks.{
  BasicBlock, Split, new_block, add_statement, start_label, stack_comment_of, record_target,
  split_opcode, split_label, split_other,
}
use geas.StackCheck.Blocks.Partition.{
  statements_of, op_ends, leaves, leaves_kind, enters, IsBasic, IsOpen, Good, Took, LeavesLast-All,
  EntersFirst-snoc, EntersFirst-first, goes_on, closes, All-snoc, statements-append,
}

record_target-statements :
    (st : Statement) (e : Option Expr) (b : BasicBlock)
    → (record_target st e b).statements ≡ b.statements
unfolding record_target
record_target-statements st none b = refl
record_target-statements st (some (label_ref ident true)) b = refl
record_target-statements st (some (label_ref ident false)) b = refl
record_target-statements st (some (literal text v is_string)) b = refl
record_target-statements st (some (variable ident)) b = refl
record_target-statements st (some (macro_call call ident builtin args)) b = refl
record_target-statements st (some (binary op l r)) b = refl
record_target-statements st (some (unary op e)) b = refl
record_target-statements st (some (group e)) b = refl

module _ (to_upper : String → String) (is_space : Char → Bool) (is_terminal : Statement → Bool)
    (fork : InstructionSet) where
  abbrev pub Takes : Statement → Split → Split → Type 0
  Takes = Took to_upper is_terminal fork

  abbrev pub Fine : Split → Type 0
  Fine = Good to_upper is_terminal fork

  pub split_other-Took :
      (st : Statement) (blocks : List BasicBlock) (cur : BasicBlock)
      → Fine (blocks, cur)
      → leaves to_upper is_terminal fork st ≡ is_terminal st
      → enters to_upper is_terminal fork st ≡ false
      → Takes st (blocks, cur) (split_other to_upper is_space is_terminal fork st blocks cur)
  unfolding split_other add_statement
  split_other-Took st blocks cur good l e =
      let enter = EntersFirst-snoc to_upper is_terminal fork cur.statements st good.1.1 e in
      elim (Bool-cases (is_terminal st)) [
        | inl h ↦ rw h (closes to_upper is_terminal fork st false blocks cur _ good enter refl)
        | inr h ↦ rw h (
            goes_on to_upper is_terminal fork st blocks cur (add_statement st cur) good (l ∙ h)
              enter refl)
      ]

  abbrev pub leaves_of : Statement → StatementKind → Bool
  leaves_of st k = leaves_kind to_upper is_terminal fork k st

  if_target-statements :
      (b : Bool) (st : Statement) (e : Option Expr) (cur : BasicBlock)
      → (if b then record_target st e cur else cur).statements ≡ cur.statements
  if_target-statements true st e cur = record_target-statements st e cur
  if_target-statements false st e cur = refl

  pub split_opcode-Took :
      (o : Option Op) (st : Statement) (e : Option Expr) (blocks : List BasicBlock)
      (cur : BasicBlock)
      → Fine (blocks, cur)
      → leaves to_upper is_terminal fork st ≡ op_ends o
      → enters to_upper is_terminal fork st ≡ false
      → Takes st (blocks, cur) (split_opcode o st e blocks (add_statement st cur))
  unfolding split_opcode add_statement
  split_opcode-Took none st e blocks cur good l n =
      goes_on to_upper is_terminal fork st blocks cur (add_statement st cur) good l
        (EntersFirst-snoc to_upper is_terminal fork cur.statements st good.1.1 n) refl
  split_opcode-Took (some o) st e blocks cur good l n =
      let enter = EntersFirst-snoc to_upper is_terminal fork cur.statements st good.1.1 n in
      elim (Bool-cases (o.term || o.unconditional)) [
        | inl h ↦ rw h (
            closes to_upper is_terminal fork st false blocks cur _ good enter
              (if_target-statements o.jump st e (add_statement st cur)))
        | inr h ↦ elim (Bool-cases o.jump) [
          | inl j ↦
              rw (h, j)
                (closes to_upper is_terminal fork st true blocks cur _ good enter
                  (record_target-statements st e (add_statement st cur)))
          | inr j ↦
              rw (h, j)
                (goes_on to_upper is_terminal fork st blocks cur (add_statement st cur) good
                  (l ∙ ground (arith, h, j)) enter refl)
        ]
      ]

  -- The current block is finished before the statement, which starts a new one.
  starts_new :
      (st : Statement) (blocks : List BasicBlock) (cur next : BasicBlock)
      → Fine (blocks, cur)
      → 0 < length cur.statements
      → leaves to_upper is_terminal fork st ≡ false
      → next.statements ≡ st ∷ []
      → Takes st (blocks, cur) (blocks ++ cur ∷ [], next)
  starts_new st blocks cur next good some_statement l e =
      subst
        (λ ns.
          (All (IsBasic to_upper is_terminal fork) (blocks ++ cur ∷ [])
            × IsOpen to_upper is_terminal fork ns)
          × (statements_of (blocks ++ cur ∷ []) ++ ns
              ≡ (statements_of blocks ++ cur.statements) ++ st ∷ []))
        (sym e)
        (
          (
            All-snoc _ blocks cur good.0 (
              some_statement,
              LeavesLast-All to_upper is_terminal fork cur.statements good.1.0,
              good.1.1,
            ),
            ((l, tt), tt),
          ),
          ap (λ xs. xs ++ st ∷ [])
              (statements-append blocks (cur ∷ [])
                ∙ ap (λ xs. statements_of blocks ++ xs) (append-nil cur.statements)),
        )

  pub split_label-Took :
      (d : LabelDef) (st : Statement) (blocks : List BasicBlock) (cur : BasicBlock)
      → Fine (blocks, cur)
      → leaves to_upper is_terminal fork st ≡ false
      → enters to_upper is_terminal fork st ≡ not d.dotted
      → Takes st (blocks, cur) (split_label to_upper is_space is_terminal fork d st blocks cur)
  unfolding split_label add_statement start_label
  split_label-Took d st blocks cur good l n = elim (Bool-cases d.dotted) [
    | inl h ↦ rw h (
        goes_on to_upper is_terminal fork st blocks cur (add_statement st cur) good l
          (EntersFirst-snoc to_upper is_terminal fork cur.statements st good.1.1 (n ∙ ap not h))
          refl)
    | inr h ↦ elim (Bool-cases (ltb 0 (length cur.statements))) [
      | inl k ↦
          let next =
            new_block (not cur.ends_with_terminal && not cur.ends_with_unconditional_jump) in
          rw (h, k)
            (starts_new st blocks cur
              (start_label (stack_comment_of is_space st next.label_comment) d st next) good
              (ground arith) l refl)
      | inr k ↦
          rw (h, k)
            (goes_on to_upper is_terminal fork st blocks cur
              (start_label (stack_comment_of is_space st cur.label_comment) d st cur) good l
              (EntersFirst-first to_upper is_terminal fork cur.statements st k) refl)
    ]
  ]
