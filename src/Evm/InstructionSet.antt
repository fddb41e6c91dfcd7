-- ===== src/Evm/InstructionSet.antt =====
-- internal/evm/instruction_set.go: how a fork's name is resolved to its set of instructions.
-- strings.ToLower is the parameter `to_lower`. A definition in the registry is known by its key,
-- where the source compares pointers.
pub mod Consistent
pub mod Resolves
pub mod Lookup
use Prim.Native.String.{◌++◌ as append}
use geas.Prelude.{
  ℕ, zero, suc, refl, ◌≡◌, List, [], ◌∷◌, ◌++◌, Option, none, some, String, Bool, true, false, ◌==◌,
  string_eq, nat_eq, if◌then◌else◌, Map, empty, insert, delete, is_some, length,
}
use geas.Evm.Op.{Op}
use geas.Evm.Defs.{InstructionSetDef, InstructionSet, contains}
use geas.Evm.Effect.{decimal}

pub data ResolveError : Type 0 where
  parent_cycle unknown_parent : String → ResolveError
  removed_op_missing removed_code_missing added_twice code_added_twice : String → ResolveError
  nil_op : ResolveError
  out_of_fuel : ResolveError

pub data Result {ℓ} (A : Type ℓ) : Type ℓ where
  ok : A → Result A
  err : ResolveError → Result A

infixl 5 ◌>>=◌
abbrev pub ◌>>=◌ {ℓ κ} : {V : Type ℓ} {W : Type κ} → Result V → (V → Result W) → Result W
ok v >>= next = next v
err why >>= next = err why

-- Inversion of a successful bind.
pub >>=-eq-ok {ℓ κ} :
    {V : Type ℓ} {W : Type κ} (first : Result V) (next : V → Result W) {w : W}
    → (first >>= next) ≡ ok w
    → (v : V) × (first ≡ ok v) × (next v ≡ ok w)
>>=-eq-ok (ok v) next both = (v, refl, both)
>>=-eq-ok (err why) next both = cc

abbrev pub Registry : Type 0
Registry = List (String × InstructionSetDef)

-- `forkReg[name]`
unfoldable pub registered : Registry → String → Option InstructionSetDef
registered [] name = none
registered ((key, def) ∷ reg) name = if key == name then some def else registered reg name

-- The loop over the registry's values in FindInstructionSet.
unfoldable pub with_alias : Registry → String → Option InstructionSetDef
with_alias [] name = none
with_alias ((key, def) ∷ reg) name =
    if contains def.names name then some def else with_alias reg name

first_name : List String → String
first_name [] = ""
first_name (n ∷ _) = n

unfoldable pub canonical_name : InstructionSetDef → String
unfolding first_name
canonical_name def = first_name def.names

-- `parent, ok := forkReg[def.Parent]`, and the error if it is not there.
abbrev pub to_parent {ℓ} :
    {A : Type ℓ} → String → Option InstructionSetDef → (InstructionSetDef → Result A) → Result A
to_parent name none up = err (unknown_parent name)
to_parent name (some parent) up = up parent

-- The loop of lineage. `lin` has its last element first: the source appends, and calls
-- slices.Reverse at the end.
unfoldable pub lineage_loop :
    Registry
    → ℕ
    → List String
    → List InstructionSetDef
    → InstructionSetDef
    → Result (List InstructionSetDef)
lineage_loop reg zero visited lin def = err out_of_fuel
lineage_loop reg (suc fuel) visited lin def =
    let up = λ (parent : InstructionSetDef).
      lineage_loop reg fuel (canonical_name def ∷ visited) (def ∷ lin) parent in
    if contains visited (canonical_name def)
    then err (parent_cycle (canonical_name def))
    else (if def.parent == ""
        then ok (def ∷ lin)
        else to_parent def.parent (registered reg def.parent) up)

-- Each round but the last visits another definition of the registry.
unfoldable pub lineage : Registry → InstructionSetDef → Result (List InstructionSetDef)
unfolding lineage_loop
lineage reg def = lineage_loop reg (suc (suc (length reg))) [] [] def

unfoldable pub remove_op : InstructionSetDef → Op → InstructionSet → Result InstructionSet
remove_op def o is =
    if is_some (is.by_name o.name)
    then (if is_some (is.by_code o.code)
        then ok (record is {
          by_name = delete o.name is.by_name;
          by_code = delete o.code is.by_code;
          op_removed = insert o.name (canonical_name def) is.op_removed;
        })
        else err (removed_code_missing o.name))
    else err (removed_op_missing o.name)

unfoldable pub add_op : Op → InstructionSet → Result InstructionSet
add_op o is =
    if is_some (is.by_name o.name)
    then err (added_twice o.name)
    else (if is_some (is.by_code o.code)
        then err (code_added_twice o.name)
        else ok (record is {
          by_name = insert o.name o is.by_name;
          by_code = insert o.code o is.by_code;
          op_removed = delete o.name is.op_removed;
        }))

-- A nil pointer in a list of instructions is dereferenced.
unfoldable pub remove_ops :
    InstructionSetDef → List (Option Op) → InstructionSet → Result InstructionSet
remove_ops def [] is = ok is
remove_ops def (none ∷ rest) is = err nil_op
remove_ops def (some o ∷ rest) is = remove_op def o is >>= remove_ops def rest

unfoldable pub add_ops : List (Option Op) → InstructionSet → Result InstructionSet
add_ops [] is = ok is
add_ops (none ∷ rest) is = err nil_op
add_ops (some o ∷ rest) is = add_op o is >>= add_ops rest

unfoldable pub apply_defs : List InstructionSetDef → InstructionSet → Result InstructionSet
apply_defs [] is = ok is
apply_defs (def ∷ defs) is = remove_ops def def.removed is >>= add_ops def.added >>= apply_defs defs

unfoldable pub resolve_defs : Registry → InstructionSetDef → InstructionSet → Result InstructionSet
resolve_defs reg toplevel is = lineage reg toplevel >>= λ defs. apply_defs defs is

abbrev pub empty_set : String → InstructionSet
empty_set name = record { name = name; by_name = empty; by_code = empty; op_removed = empty }

or_else : Option InstructionSetDef → Option InstructionSetDef → Option InstructionSetDef
or_else (some d) _ = some d
or_else none d = d

unfoldable pub find_def : Registry → String → Option InstructionSetDef
unfolding or_else
find_def reg name = or_else (registered reg name) (with_alias reg name)

resolve_found : Registry → Option InstructionSetDef → Option (Result InstructionSet)
resolve_found reg none = none
resolve_found reg (some def) = some (resolve_defs reg def (empty_set (canonical_name def)))

-- `none` is the nil of an unknown name; an error is the panic of FindInstructionSet.
unfoldable pub find_instruction_set :
    (String → String) → Registry → String → Option (Result InstructionSet)
unfolding resolve_found
find_instruction_set to_lower reg name = resolve_found reg (find_def reg (to_lower name))

unfoldable pub op_by_name : InstructionSet → String → Option Op
op_by_name is name = is.by_name name

unfoldable pub op_by_code : InstructionSet → ℕ → Option Op
op_by_code is c = is.by_code c

unfoldable pub supports_push0 : InstructionSet → Bool
supports_push0 is = is_some (is.by_name "PUSH0")

unfoldable pub push_by_size : InstructionSet → ℕ → Option Op
push_by_size is size = is.by_name (append "PUSH" (decimal size))

unfoldable pub fork_where_op_removed : InstructionSet → String → Option String
fork_where_op_removed is name = is.op_removed name
