-- ===== src/Evm/Defs.antt =====
-- internal/evm/instruction_set.go: the types, the map `opm` of internal/evm/ops.go and how a
-- definition of internal/evm/forkdefs.go names its instructions. A pointer to an Op is the Op; the
-- nil pointer that `opm` gives for an unknown name is `none`.
pub mod Table
use geas.Prelude.{
  ℕ, List, [], ◌∷◌, map, Option, String, Bool, false, ◌||◌, ◌==◌, string_eq, nat_eq, if◌then◌else◌,
  Map, empty, insert, is_some,
}
use geas.Evm.Op.{Op}
use geas.Evm.Oplist.{oplist}

pub record InstructionSetDef : Type 0 where
  pub names : List String
  pub parent : String
  pub added : List (Option Op)
  pub removed : List (Option Op)

pub record InstructionSet : Type 0 where
  pub name : String
  pub by_name : Map String Op
  pub by_code : Map ℕ Op
  pub op_removed : Map String String

unfoldable pub contains : List String → String → Bool
contains [] s = false
contains (x ∷ xs) s = x == s || contains xs s

unfoldable pub has_duplicate : List String → Bool
unfolding contains
has_duplicate [] = false
has_duplicate (x ∷ xs) = contains xs x || has_duplicate xs

pub data OpsMap : Type 0 where
  built : Map String Op → OpsMap
  duplicate_op duplicate_input : String → OpsMap

-- The loop of computeOpsMap over the rest of the list, with the map built so far. Its checks end
-- the program by a panic.
unfoldable pub compute_ops_map : List Op → Map String Op → OpsMap
compute_ops_map [] m = built m
compute_ops_map (o ∷ ops) m =
    let rest = compute_ops_map ops (insert o.name o m) in
    if is_some (m o.name)
    then duplicate_op o.name
    else (if has_duplicate o.inputs then duplicate_input o.name else rest)

built_map : OpsMap → Map String Op
built_map (built m) = m
built_map _ = empty

unfoldable pub opm : Map String Op
unfolding compute_ops_map built_map
opm = built_map (compute_ops_map oplist empty)

-- `[]*Op{opm["A"], opm["B"], …}`
unfoldable pub ops : List String → List (Option Op)
ops = map opm
