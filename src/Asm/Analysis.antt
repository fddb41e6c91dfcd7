-- ===== src/Asm/Analysis.antt =====
-- asm/compiler_analysis.go: the warnings about labels that no expression uses, and the errors
-- about parameters that are named twice. A definition is
-- known by its number; `used` is the set that the evaluator has filled.
pub mod Unused
pub mod Params
mod Tests
use geas.Evm.Defs.{contains}
use geas.Prelude.{ℕ, Bool, String, List, [], ◌∷◌, ◌||◌, if◌then◌else◌}
use geas.Ast.{LabelDef}
use geas.Asm.Evaluator.{CompilerLabel}
use geas.Asm.Evaluator.Builtins.{member}

-- The loop, with the definitions seen so far: what is warned about.
unfoldable pub unused_loop : List ℕ → List ℕ → List CompilerLabel → List LabelDef
unfolding member
unused_loop used seen [] = []
unused_loop used seen (l ∷ labels) =
    let rest = unused_loop used (if member l.def.id seen then seen else l.def.id ∷ seen) labels in
    if member l.def.id seen || member l.def.id used then rest else l.def ∷ rest

unfoldable pub check_labels_used : List ℕ → List CompilerLabel → List LabelDef
unfolding unused_loop
check_labels_used used labels = unused_loop used [] labels

-- checkDuplicateParams: the parameters that an error is reported for.
unfoldable pub duplicates_loop : List String → List String → List String
unfolding contains
duplicates_loop seen [] = []
duplicates_loop seen (p ∷ params) =
    let rest = duplicates_loop (p ∷ seen) params in if contains seen p then p ∷ rest else rest

unfoldable pub check_duplicate_params : List String → List String
unfolding duplicates_loop
check_duplicate_params params = duplicates_loop [] params
