-- ===== src/Asm/Expand/Resolve.antt =====
-- asm/compiler_expand.go, resolveOp, with IsJump of internal/evm/ops.go and ForksWhereOpAdded of
-- internal/evm/instruction_set.go.
use geas.Prelude.{
  Option-cases, ◌⊎◌, inl, inr, ◌≡◌, refl, Bool, false, Option, none, some, List, [], ◌∷◌, ◌++◌,
  String, ◌==◌, string_eq, nat_eq, if◌then◌else◌,
}
use geas.Evm.Op.{Op}
use geas.Evm.Defs.{InstructionSet, InstructionSetDef, opm}
use geas.Evm.InstructionSet.{op_by_name, fork_where_op_removed, canonical_name}
use geas.Evm.Forks.{fork_reg}
use geas.Asm.Expand.Defs.{
  ExpandError, unknown_op, removed_op, added_op, Prog, Outcome, panicked, refuse,
}

-- computeOpAddedInFork, for one instruction: a fork is listed once for each time that it adds it.
-- The forks have the order of the registry here, and a nil instruction, on which Go would panic when
-- the program starts, is passed over.
added_by : String → String → List (Option Op) → List String
added_by op fork [] = []
added_by op fork (none ∷ rest) = added_by op fork rest
added_by op fork (some o ∷ rest) =
    let more = added_by op fork rest in if o.name == op then fork ∷ more else more

forks_adding : String → List (String × InstructionSetDef) → List String
unfolding added_by canonical_name
forks_adding op [] = []
forks_adding op ((key, def) ∷ reg) =
    added_by op (canonical_name def) def.added ++ forks_adding op reg

unfoldable pub forks_where_op_added : String → List String
unfolding forks_adding fork_reg
forks_where_op_added op = forks_adding op fork_reg

-- evm.IsJump
jumps : Option Op → Bool
jumps none = false
jumps (some o) = o.jump

unfoldable pub is_jump : String → Bool
unfolding jumps opm
is_jump name = jumps (opm name)

-- `no_fork` is the nil dereference for a program whose fork is unknown.
pub data Resolved : Type 0 where
  op : Op → Resolved
  unresolved : ExpandError → Resolved
  no_fork : Resolved

added_error : String → List String → ExpandError
added_error name [] = unknown_op name
added_error name (f ∷ forks) = added_op name (f ∷ forks)

missing_op : String → Option String → ExpandError
unfolding added_error forks_where_op_added
missing_op name none = added_error name (forks_where_op_added name)
missing_op name (some fork) =
    if fork == "" then added_error name (forks_where_op_added name) else removed_op name fork

found_op : InstructionSet → String → Option Op → Resolved
unfolding missing_op fork_where_op_removed
found_op is name none = unresolved (missing_op name (fork_where_op_removed is name))
found_op is name (some o) = op o

unfoldable pub resolve_op : Option InstructionSet → String → Resolved
unfolding found_op op_by_name
resolve_op none name = no_fork
resolve_op (some is) name = found_op is name (op_by_name is name)

unfoldable pub after_resolved : Resolved → Prog → (Op → Outcome) → Outcome
after_resolved (op o) p next = next o
after_resolved (unresolved e) p next = refuse e p
after_resolved no_fork p next = panicked

-- A name of the instruction set is resolved, and any other is refused.
pub resolve_op-cases :
    (is : InstructionSet) (name : String)
    → ((e : ExpandError) × (resolve_op (some is) name ≡ unresolved e))
      ⊎ ((o : Op) × (resolve_op (some is) name ≡ op o) × (op_by_name is name ≡ some o))
unfolding resolve_op found_op
resolve_op-cases is name = elim (Option-cases (op_by_name is name)) [
  | inl e ↦ rw e (inl (_, refl))
  | inr (o, e) ↦ inr (o, rw e refl, e)
]
