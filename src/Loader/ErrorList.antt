-- ===== src/Loader/ErrorList.antt =====
-- internal/loader/errorlist.go: the list of errors and warnings. Errors are the elements of a type
-- with the test IsWarning; a nil error is `none`. The panic that ends the compilation keeps the list,
-- which the code around it goes on to use. A limit below 1 is a limit of 1, so it is a natural number.
pub mod Counts
mod Tests
use geas.Prelude.{
  ℕ, suc, ◌+◌, max, Bool, true, false, not, ◌||◌, Option, none, some, List, [], ◌∷◌, ◌++◌, ltb,
  if◌then◌else◌,
}

pub record ErrorList (E : Type 0) : Type 0 where
  pub list : List E
  pub num_errors : ℕ
  pub num_warnings : ℕ
  pub max_errors : ℕ

-- What Add does: it returns whether there was an error that is no warning, or it panics.
pub data Added (E : Type 0) : Type 0 where
  added : ErrorList E → Bool → Added E
  cancelled : ErrorList E → Added E

module _ {E : Type 0} where
  unfoldable pub set_max_errors : ErrorList E → ℕ → ErrorList E
  set_max_errors l n = record l { max_errors = max n 1 }

  unfoldable pub new_error_list : ℕ → ErrorList E
  unfolding set_max_errors
  new_error_list n =
      set_max_errors (record { list = []; num_errors = 0; num_warnings = 0; max_errors = 0 }) n

  unfoldable pub clear : ErrorList E → ErrorList E
  clear l = record l { list = []; num_errors = 0; num_warnings = 0 }

  unfoldable pub has_error : ErrorList E → Bool
  has_error l = ltb 0 l.num_errors

  -- The elements of the list that pass a test, in order.
  abbrev pub keep : (E → Bool) → List E → List E
  keep p [] = []
  keep p (e ∷ es) = if p e then e ∷ keep p es else keep p es

module _ {E : Type 0} (is_warning : E → Bool) where
  unfoldable pub warnings : ErrorList E → List E
  warnings l = keep is_warning l.list

  unfoldable pub errors : ErrorList E → List E
  errors l = keep (λ e. not (is_warning e)) l.list

  unfoldable pub add_one : E → ErrorList E → ErrorList E
  add_one e l =
      if is_warning e
      then record l { list = l.list ++ e ∷ []; num_warnings = l.num_warnings + 1 }
      else record l { list = l.list ++ e ∷ []; num_errors = l.num_errors + 1 }

  unfoldable pub add_loop : ErrorList E → Bool → List (Option E) → Added E
  unfolding add_one
  add_loop l any_real_error [] = added l any_real_error
  add_loop l any_real_error (none ∷ errs) = add_loop l any_real_error errs
  add_loop l any_real_error (some e ∷ errs) =
      let rest = add_loop (add_one e l) (any_real_error || not (is_warning e)) errs in
      if ltb l.max_errors (add_one e l).num_errors then cancelled (add_one e l) else rest

  unfoldable pub add : ErrorList E → List (Option E) → Added E
  unfolding add_loop
  add l errs = add_loop l false errs
