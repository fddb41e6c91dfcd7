-- ===== src/Evm/InstructionSet/Resolves.antt =====
-- Every fork of the registry resolves, by evaluation: no instruction is added twice or removed while
-- it is missing, no two instructions share a code, and no chain of parents has a cycle or a gap.
use geas.Prelude.{◌≡◌, refl, Bool, true, false, arith}
use geas.Evm.Defs.{
  opm, compute_ops_map, ops, contains, has_duplicate, InstructionSetDef, InstructionSet,
}
use geas.Evm.Oplist.{oplist}
use geas.Evm.Forks.{
  fork_reg, frontier, homestead, tangerinewhistle, spuriousdragon, byzantium, petersburg,
  constantinople, istanbul, berlin, london, paris, shanghai, cancun, prague, osaka, amsterdam, tron,
}
use geas.Evm.InstructionSet.{
  Result, ok, err, resolve_defs, apply_defs, lineage, empty_set, canonical_name, remove_ops,
  add_ops, add_op, remove_op, registered,
}
use geas.Evm.InstructionSet.Consistent.{Holds}

abbrev pub Resolves : InstructionSetDef → Type 0
Resolves def =
    (is : InstructionSet) × (resolve_defs fork_reg def (empty_set (canonical_name def)) ≡ ok is)

succeeds : Result InstructionSet → Bool
succeeds (ok _) = true
succeeds (err _) = false

succeeds-ok : (r : Result InstructionSet) → succeeds r ≡ true → (is : InstructionSet) × (r ≡ ok is)
unfolding succeeds
succeeds-ok (ok is) h = (is, refl)
succeeds-ok (err e) h = absurd (ground arith)

-- The definitions that a run of resolve_defs computes with.
run : InstructionSetDef → Bool
unfolding succeeds resolve_defs apply_defs fork_reg opm compute_ops_map oplist lineage contains
    remove_ops add_ops remove_op add_op ops has_duplicate registered canonical_name
run def = succeeds (resolve_defs fork_reg def (empty_set (canonical_name def)))

run-Resolves : (def : InstructionSetDef) → run def ≡ true → Resolves def
unfolding run
run-Resolves def h = succeeds-ok _ h

frontier-Resolves : Resolves frontier
unfolding run
frontier-Resolves = run-Resolves frontier refl

homestead-Resolves : Resolves homestead
unfolding run
homestead-Resolves = run-Resolves homestead refl

tangerinewhistle-Resolves : Resolves tangerinewhistle
unfolding run
tangerinewhistle-Resolves = run-Resolves tangerinewhistle refl

spuriousdragon-Resolves : Resolves spuriousdragon
unfolding run
spuriousdragon-Resolves = run-Resolves spuriousdragon refl

byzantium-Resolves : Resolves byzantium
unfolding run
byzantium-Resolves = run-Resolves byzantium refl

petersburg-Resolves : Resolves petersburg
unfolding run
petersburg-Resolves = run-Resolves petersburg refl

constantinople-Resolves : Resolves constantinople
unfolding run
constantinople-Resolves = run-Resolves constantinople refl

istanbul-Resolves : Resolves istanbul
unfolding run
istanbul-Resolves = run-Resolves istanbul refl

berlin-Resolves : Resolves berlin
unfolding run
berlin-Resolves = run-Resolves berlin refl

london-Resolves : Resolves london
unfolding run
london-Resolves = run-Resolves london refl

paris-Resolves : Resolves paris
unfolding run
paris-Resolves = run-Resolves paris refl

shanghai-Resolves : Resolves shanghai
unfolding run
shanghai-Resolves = run-Resolves shanghai refl

cancun-Resolves : Resolves cancun
unfolding run
cancun-Resolves = run-Resolves cancun refl

prague-Resolves : Resolves prague
unfolding run
prague-Resolves = run-Resolves prague refl

osaka-Resolves : Resolves osaka
unfolding run
osaka-Resolves = run-Resolves osaka refl

amsterdam-Resolves : Resolves amsterdam
unfolding run
amsterdam-Resolves = run-Resolves amsterdam refl

tron-Resolves : Resolves tron
unfolding run
tron-Resolves = run-Resolves tron refl

pub fork_reg-Resolves : Holds Resolves fork_reg
unfolding fork_reg
fork_reg-Resolves = (
  frontier-Resolves,
  (
    homestead-Resolves,
    (
      tangerinewhistle-Resolves,
      (
        spuriousdragon-Resolves,
        (
          byzantium-Resolves,
          (
            petersburg-Resolves,
            (
              constantinople-Resolves,
              (
                istanbul-Resolves,
                (
                  berlin-Resolves,
                  (
                    london-Resolves,
                    (
                      paris-Resolves,
                      (
                        shanghai-Resolves,
                        (
                          cancun-Resolves,
                          (
                            prague-Resolves,
                            (osaka-Resolves, (amsterdam-Resolves, (tron-Resolves, tt))),
                          ),
                        ),
                      ),
                    ),
                  ),
                ),
              ),
            ),
          ),
        ),
      ),
    ),
  ),
)
