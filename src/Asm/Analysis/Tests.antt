-- ===== src/Asm/Analysis/Tests.antt =====
-- Two labels, one of them used, and a parameter list with a repetition.
use geas.Prelude.{ℕ, ◌≡◌, true, false, not, ◌&&◌, List, [], ◌∷◌}
use geas.Evm.Defs.{has_duplicate}
use geas.Asm.Evaluator.{CompilerLabel}
use geas.Asm.Evaluator.Builtins.{member}
use geas.Asm.Analysis.{check_labels_used, check_duplicate_params}
use geas.Asm.Analysis.Unused.{ids, label_ids, has_repeat, check_labels_used-member}
use geas.Asm.Analysis.Params.{is_empty, check_duplicate_params-is_empty}

abbrev two_labels : List CompilerLabel
two_labels =
    record { doc = 0; def = record { id = 1; ident = "a"; dotted = false }; instr = 0 }
    ∷ record { doc = 0; def = record { id = 2; ident = "b"; dotted = true }; instr = 3 }
    ∷ []

check_labels_used-member_example :
    ((n : ℕ)
      → member n (ids (check_labels_used (1 ∷ []) two_labels))
        ≡ (member n (label_ids two_labels) && not (member n (1 ∷ []))))
    × (has_repeat (ids (check_labels_used (1 ∷ []) two_labels)) ≡ false)
check_labels_used-member_example = check_labels_used-member (1 ∷ []) two_labels

check_duplicate_params-is_empty_example :
    is_empty (check_duplicate_params ("x" ∷ "y" ∷ "x" ∷ []))
    ≡ not (has_duplicate ("x" ∷ "y" ∷ "x" ∷ []))
check_duplicate_params-is_empty_example = check_duplicate_params-is_empty ("x" ∷ "y" ∷ "x" ∷ [])
