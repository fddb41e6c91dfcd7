-- ===== src/Asm/Analysis/Params.antt =====
-- When checkDuplicateParams reports an error.
use geas.Prelude.{
  ◌≡◌, refl, Bool, true, false, not, ◌&&◌, List, [], ◌∷◌, String, string_eq, eq_iff, arith,
}
use geas.Evm.Defs.{contains, has_duplicate}
use geas.Asm.Analysis.{duplicates_loop, check_duplicate_params}

abbrev pub is_empty : List String → Bool
is_empty [] = true
is_empty (_ ∷ _) = false

-- No parameter was seen before.
abbrev none_seen : List String → List String → Bool
none_seen seen [] = true
none_seen seen (p ∷ params) = not (contains seen p) && none_seen seen params

none_seen-cons :
    (p : String) (seen params : List String)
    → none_seen (p ∷ seen) params ≡ (none_seen seen params && not (contains params p))
unfolding contains
none_seen-cons p seen [] = refl
none_seen-cons p seen (q ∷ params) =
    ground (arith, none_seen-cons p seen params, eq_iff p q, eq_iff q p)

is_empty-duplicates_loop :
    (seen params : List String)
    → is_empty (duplicates_loop seen params) ≡ (none_seen seen params && not (has_duplicate params))
unfolding duplicates_loop has_duplicate
is_empty-duplicates_loop seen [] = refl
is_empty-duplicates_loop seen (p ∷ params) =
    ground (arith, is_empty-duplicates_loop (p ∷ seen) params, none_seen-cons p seen params)

none_seen_at_first : (params : List String) → none_seen [] params ≡ true
unfolding contains
none_seen_at_first [] = refl
none_seen_at_first (p ∷ params) = none_seen_at_first params

-- checkDuplicateParams reports no error exactly if the parameters are distinct.
pub check_duplicate_params-is_empty :
    (params : List String) → is_empty (check_duplicate_params params) ≡ not (has_duplicate params)
unfolding check_duplicate_params
check_duplicate_params-is_empty params =
    ground (arith, is_empty-duplicates_loop [] params, none_seen_at_first params)
