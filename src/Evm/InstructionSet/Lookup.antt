-- ===== src/Evm/InstructionSet/Lookup.antt =====
-- The registry of forks: its definitions name known instructions only, and every fork resolves.
use geas.Prelude.{
  List, [], ◌∷◌, ◌≡◌, String, some, arith, inl, inr, Option-cases, ap, ◌∙◌, string_eq, Bool-cases,
}
use mathlib.Core.Path.{subst}
use geas.Evm.Defs.{opm, ops, contains, InstructionSetDef, InstructionSet}
use geas.Evm.Forks.{fork_reg}
use geas.Evm.InstructionSet.{
  Registry, Result, ok, find_instruction_set, canonical_name, find_def, with_alias, registered,
}
use geas.Evm.Defs.Table.{opm-IsKeyed}
use geas.Evm.InstructionSet.Resolves.{Resolves, fork_reg-Resolves}
use geas.Evm.InstructionSet.Consistent.{
  IsConsistent, AllFrom, DefFrom, Holds, registered-Holds, resolve_defs-IsConsistent,
}

ops-AllFrom : (names : List String) → AllFrom opm (ops names)
unfolding ops
ops-AllFrom [] = tt
ops-AllFrom (n ∷ names) = elim (Option-cases (opm n)) [
  | inl e ↦ rw e (ops-AllFrom names)
  | inr (o, e) ↦ rw e (ap opm (opm-IsKeyed n o e) ∙ e, ops-AllFrom names)
]

fork_reg-From : Holds (DefFrom opm) fork_reg
unfolding fork_reg
fork_reg-From = (
  (ops-AllFrom _, ops-AllFrom _),
  (
    (ops-AllFrom _, ops-AllFrom _),
    (
      (ops-AllFrom _, ops-AllFrom _),
      (
        (ops-AllFrom _, ops-AllFrom _),
        (
          (ops-AllFrom _, ops-AllFrom _),
          (
            (ops-AllFrom _, ops-AllFrom _),
            (
              (ops-AllFrom _, ops-AllFrom _),
              (
                (ops-AllFrom _, ops-AllFrom _),
                (
                  (ops-AllFrom _, ops-AllFrom _),
                  (
                    (ops-AllFrom _, ops-AllFrom _),
                    (
                      (ops-AllFrom _, ops-AllFrom _),
                      (
                        (ops-AllFrom _, ops-AllFrom _),
                        (
                          (ops-AllFrom _, ops-AllFrom _),
                          (
                            (ops-AllFrom _, ops-AllFrom _),
                            (
                              (ops-AllFrom _, ops-AllFrom _),
                              (
                                (ops-AllFrom _, ops-AllFrom _),
                                ((ops-AllFrom _, ops-AllFrom _), tt),
                              ),
                            ),
                          ),
                        ),
                      ),
                    ),
                  ),
                ),
              ),
            ),
          ),
        ),
      ),
    ),
  ),
)

with_alias-Holds :
    (P : InstructionSetDef → Type 0) (reg : Registry) (name : String) (def : InstructionSetDef)
    → Holds P reg
    → with_alias reg name ≡ some def
    → P def
unfolding with_alias
with_alias-Holds P [] name def v h = absurd (ground arith)
with_alias-Holds P ((key, d) ∷ reg) name def v h = elim (Bool-cases (contains d.names name)) [
  | inl e ↦ subst P (ground arith) v.0
  | inr e ↦ with_alias-Holds P reg name def v.1 (ground arith)
]

find_def-Holds :
    (P : InstructionSetDef → Type 0) (reg : Registry) (name : String) (def : InstructionSetDef)
    → Holds P reg
    → find_def reg name ≡ some def
    → P def
unfolding find_def
find_def-Holds P reg name def v h = elim (Option-cases (registered reg name)) [
  | inl e ↦ with_alias-Holds P reg name def v (ground arith)
  | inr (d, e) ↦ registered-Holds P reg name def v (ground arith)
]

-- For every name, whatever the lower-casing: FindInstructionSet does not panic, and the set that it
-- finds has each instruction under its own name and its own code, and under no other.
pub find_instruction_set-IsConsistent :
    (to_lower : String → String) (name : String) (r : Result InstructionSet)
    → find_instruction_set to_lower fork_reg name ≡ some r
    → (is : InstructionSet) × (r ≡ ok is) × IsConsistent is
unfolding find_instruction_set
find_instruction_set-IsConsistent to_lower name r h =
    elim (Option-cases (find_def fork_reg (to_lower name))) [
      | inl e ↦ absurd (ground arith)
      | inr (def, e) ↦
          let (is, q) = find_def-Holds Resolves fork_reg (to_lower name) def fork_reg-Resolves e in
          (
            is,
            ground arith,
            resolve_defs-IsConsistent opm fork_reg def (canonical_name def) is fork_reg-From
                (find_def-Holds (DefFrom opm) fork_reg (to_lower name) def fork_reg-From e) q,
          )
    ]
