-- ===== src/Loader/ErrorList/Tests.antt =====
-- A list with a limit of one error. Messages are numbers, and those below 10 are warnings.
use geas.Prelude.{ℕ, ◌≡◌, refl, Bool, some, none, [], ◌∷◌, ltb, arith}
use geas.Loader.ErrorList.{ErrorList, cancelled, add, new_error_list, errors, warnings}
use geas.Loader.ErrorList.Counts.{IsCounted, Counts, add-Counts}

abbrev below_ten : ℕ → Bool
below_ten n = ltb n 10

abbrev no_errors : ErrorList ℕ
no_errors = record { list = []; num_errors = 0; num_warnings = 0; max_errors = 1 }

starts_empty : new_error_list 0 ≡ no_errors
unfolding new_error_list
starts_empty = refl

two_errors_cancel :
    add below_ten no_errors (some 20 ∷ none ∷ some 5 ∷ some 30 ∷ some 40 ∷ [])
    ≡ cancelled
        (record { list = 20 ∷ 5 ∷ 30 ∷ []; num_errors = 2; num_warnings = 1; max_errors = 1 })
unfolding add
two_errors_cancel = refl

no_errors-IsCounted : IsCounted below_ten no_errors
unfolding errors warnings
no_errors-IsCounted = record { errors_counted = refl; warnings_counted = refl }

add-Counts_example : Counts below_ten 1 0 (add below_ten no_errors (some 20 ∷ some 5 ∷ []))
add-Counts_example =
    add-Counts below_ten no_errors (some 20 ∷ some 5 ∷ []) no_errors-IsCounted (omega arith)
