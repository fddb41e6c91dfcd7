-- ===== src/Loader/ErrorList/Counts.antt =====
-- The counters of an error list, and its limit.
use geas.Prelude.{
  ℕ, ◌+◌, ◌≤◌, ◌≡◌, refl, inl, inr, Bool, true, false, not, ◌||◌, Option, none, some, List, [], ◌∷◌,
  ◌++◌, ltb, length, if◌then◌else◌, Bool-cases, arith,
}
use geas.Loader.ErrorList.{
  ErrorList, Added, added, cancelled, keep, warnings, errors, add_one, add_loop, add,
}

module _ {E : Type 0} (is_warning : E → Bool) where
  length-keep :
      (p : E → Bool) (es : List E) (e : E)
      → length (keep p (es ++ e ∷ [])) ≡ length (keep p es) + (if p e then 1 else 0)
  length-keep p [] e = ground arith
  length-keep p (x ∷ es) e = ground (arith, length-keep p es e)

  -- The counters agree with the list.
  pub record IsCounted (l : ErrorList E) : Type 0 where
    pub errors_counted : l.num_errors ≡ length (errors is_warning l)
    pub warnings_counted : l.num_warnings ≡ length (warnings is_warning l)

  add_one-IsCounted : (e : E) (l : ErrorList E) → IsCounted l → IsCounted (add_one is_warning e l)
  unfolding add_one errors warnings
  add_one-IsCounted e l c = ground (
    arith,
    length-keep is_warning l.list e,
    length-keep (λ x. not (is_warning x)) l.list e,
    c.errors_counted,
    c.warnings_counted,
  )

  -- The list is within its limit, and the flag says whether errors were added to the first `n`.
  abbrev pub Counts : ℕ → ℕ → Added E → Type 0
  Counts limit n (added l real) = IsCounted l × (l.num_errors ≤ limit) × (real ≡ ltb n l.num_errors)
  Counts limit n (cancelled l) = IsCounted l × (l.num_errors ≡ limit + 1)

  record IsWithin (n limit : ℕ) (real : Bool) (l : ErrorList E) : Type 0 where
    same_limit : l.max_errors ≡ limit
    within : l.num_errors ≤ limit
    grown : n ≤ l.num_errors
    flag : real ≡ ltb n l.num_errors

  add_one-IsWithin :
      (n limit : ℕ) (real : Bool) (e : E) (l : ErrorList E)
      → IsWithin n limit real l
      → ltb l.max_errors (add_one is_warning e l).num_errors ≡ false
      → IsWithin n limit (real || not (is_warning e)) (add_one is_warning e l)
  unfolding add_one
  add_one-IsWithin n limit real e l w h = ground (arith, w.same_limit, w.within, w.grown, w.flag)

  add_loop-Counts :
      (n limit : ℕ) (real : Bool) (l : ErrorList E) (errs : List (Option E))
      → IsCounted l
      → IsWithin n limit real l
      → Counts limit n (add_loop is_warning l real errs)
  unfolding add_loop
  add_loop-Counts n limit real l [] c w = (c, w.within, w.flag)
  add_loop-Counts n limit real l (none ∷ errs) c w = add_loop-Counts n limit real l errs c w
  add_loop-Counts n limit real l (some e ∷ errs) c w =
      elim (Bool-cases (ltb l.max_errors (add_one is_warning e l).num_errors)) [
        | inl h ↦ rw h (add_one-IsCounted e l c, over n limit real e l w h)
        | inr h ↦ rw h (
            add_loop-Counts n limit (real || not (is_warning e)) (add_one is_warning e l) errs
              (add_one-IsCounted e l c) (add_one-IsWithin n limit real e l w h))
      ]
    where
      over :
          (n limit : ℕ) (real : Bool) (e : E) (l : ErrorList E)
          → IsWithin n limit real l
          → ltb l.max_errors (add_one is_warning e l).num_errors ≡ true
          → (add_one is_warning e l).num_errors ≡ limit + 1
      over n limit real e l w h = unfold add_one in ground (arith, w.same_limit, w.within, h)

  -- Add keeps the counters of a list that is within its limit in step with the list. It returns with
  -- at most as many errors as the limit, and says whether it added an error that is no warning; or it
  -- panics, with one error more than the limit in the list.
  pub add-Counts :
      (l : ErrorList E) (errs : List (Option E))
      → IsCounted l
      → l.num_errors ≤ l.max_errors
      → Counts l.max_errors l.num_errors (add is_warning l errs)
  unfolding add
  add-Counts l errs c h =
      add_loop-Counts l.num_errors l.max_errors false l errs c
        (record { same_limit = refl; within = h; grown = omega arith; flag = ground arith })
