-- ===== src/Stack/Apply/Inputs.antt =====
-- The loop of Apply over the inputs, on a stack that does not extend itself downward.
use geas.Prelude.{
  ◌∙◌, empty, true, ℕ, zero, suc, ◌≤◌, ◌<◌, ◌≡◌, refl, ap, false, none, some, List, [], ◌∷◌, String,
  nat_eq, string_eq, Map, insert, length, drop, get_elem?, get_elem?-ge, All, arith, eq_iff, inl,
  inr, Option-cases,
}
use geas.Evm.Defs.{contains, has_duplicate}
use geas.Stack.Defs.{Stack, op_underflow, get}
use geas.Stack.Apply.{consume, consumed, underflow}

-- The stack neither has a wildcard nor infers its inputs.
pub record IsExact (s : Stack) : Type 0 where
  pub no_wildcard : s.wildcard ≡ false
  pub not_inferred : s.inferred ≡ false

pub get-IsExact : (i : ℕ) (s : Stack) → IsExact s → get i s ≡ (s, get_elem? s.stack i)
unfolding get
get-IsExact i s x = ground (arith, get_elem?-ge s.stack i)

-- The inputs are distinct, and none is bound yet.
abbrev pub IsFresh : List String → Map String ℕ → Type 0
IsFresh names m = All (λ n. m n ≡ none) names × (has_duplicate names ≡ false)

All-insert :
    (n : String) (a : ℕ) (names : List String) (m : Map String ℕ)
    → contains names n ≡ false
    → All (λ k. m k ≡ none) names
    → All (λ k. insert n a m k ≡ none) names
unfolding contains
All-insert n a [] m h v = tt
All-insert n a (k ∷ names) m h v =
    (ground (arith, eq_iff n k, eq_iff k n), All-insert n a names m (ground arith) v.1)

pub IsFresh-insert :
    (n : String) (a : ℕ) (names : List String) (m : Map String ℕ)
    → IsFresh (n ∷ names) m
    → IsFresh names (insert n a m)
unfolding has_duplicate
IsFresh-insert n a names m v = (All-insert n a names m (ground arith) v.0.1, ground arith)

-- The inputs bound to the items from the top downward.
pub bind_items : List String → List ℕ → Map String ℕ → Map String ℕ
bind_items [] xs m = m
bind_items (n ∷ names) [] m = m
bind_items (n ∷ names) (x ∷ xs) m = bind_items names xs (insert n x m)

drop-get_elem? :
    (i : ℕ) (xs : List ℕ) (a : ℕ) → get_elem? xs i ≡ some a → drop i xs ≡ a ∷ drop (suc i) xs
drop-get_elem? i [] a h = absurd (ground arith)
drop-get_elem? zero (x ∷ xs) a h = ground arith
drop-get_elem? (suc i) (x ∷ xs) a h = drop-get_elem? i xs a h

drop-none : (i : ℕ) (xs : List ℕ) → get_elem? xs i ≡ none → drop i xs ≡ []
drop-none zero [] h = refl
drop-none (suc i) [] h = refl
drop-none zero (x ∷ xs) h = absurd (ground arith)
drop-none (suc i) (x ∷ xs) h = drop-none i xs h

module _ (total : ℕ) where
  pub consume-enough :
      (names : List String) (i : ℕ) (s : Stack)
      → IsExact s
      → IsFresh names s.op_items
      → length names ≤ length (drop i s.stack)
      → consume total names i s
        ≡ consumed (record s { op_items = bind_items names (drop i s.stack) s.op_items })
  unfolding consume bind_items
  consume-enough [] i s x f h = refl
  consume-enough (n ∷ names) i s x f h = elim (Option-cases (get_elem? s.stack i)) [
    | inl e ↦ absurd (omega (arith, ap length (drop-none i s.stack e)))
    | inr (a, e) ↦
        let d = drop-get_elem? i s.stack a e in
        rw (f.0.0, get-IsExact i s x, e, d)
          (consume-enough names (suc i) (record s { op_items = insert n a s.op_items })
            (record { no_wildcard = x.no_wildcard; not_inferred = x.not_inferred })
            (IsFresh-insert n a names s.op_items f) (omega (arith, ap length d)))
  ]

  pub consume-underflow :
      (names : List String) (i : ℕ) (s : Stack)
      → IsExact s
      → IsFresh names s.op_items
      → length (drop i s.stack) < length names
      → (m : Map String ℕ) × (consume total names i s
          ≡ underflow (record s { op_items = m }) (op_underflow total (length s.stack)))
  unfolding consume
  consume-underflow [] i s x f h = absurd (omega arith)
  consume-underflow (n ∷ names) i s x f h = elim (Option-cases (get_elem? s.stack i)) [
    | inl e ↦ (s.op_items, rw (f.0.0, get-IsExact i s x, e) refl)
    | inr (a, e) ↦
        let d = drop-get_elem? i s.stack a e in
        let (m, q) =
          consume-underflow names (suc i) (record s { op_items = insert n a s.op_items })
            (record { no_wildcard = x.no_wildcard; not_inferred = x.not_inferred })
            (IsFresh-insert n a names s.op_items f) (omega (arith, ap length d)) in
        (m, rw (f.0.0, get-IsExact i s x, e) q)
  ]

bind_items-other :
    (names : List String) (xs : List ℕ) (m : Map String ℕ) (k : String)
    → contains names k ≡ false
    → bind_items names xs m k ≡ m k
unfolding bind_items contains
bind_items-other [] xs m k h = refl
bind_items-other (n ∷ names) [] m k h = refl
bind_items-other (n ∷ names) (x ∷ xs) m k h =
    bind_items-other names xs (insert n x m) k (ground arith) ∙ ground arith

pub bind_items-absent :
    (names : List String) (xs : List ℕ) (k : String)
    → contains names k ≡ false
    → bind_items names xs empty k ≡ none
bind_items-absent names xs k h = bind_items-other names xs empty k h

contains-get_elem? :
    (names : List String) (j : ℕ) (k : String)
    → get_elem? names j ≡ some k
    → contains names k ≡ true
unfolding contains
contains-get_elem? [] j k h = absurd (ground arith)
contains-get_elem? (n ∷ names) zero k h = ground (arith, eq_iff n k)
contains-get_elem? (n ∷ names) (suc j) k h = ground (arith, contains-get_elem? names j k h)

pub bind_items-get_elem? :
    (names : List String) (xs : List ℕ) (m : Map String ℕ) (j : ℕ) (k : String) (a : ℕ)
    → has_duplicate names ≡ false
    → get_elem? names j ≡ some k
    → get_elem? xs j ≡ some a
    → bind_items names xs m k ≡ some a
unfolding bind_items has_duplicate
bind_items-get_elem? [] xs m j k a d h e = absurd (ground arith)
bind_items-get_elem? (n ∷ names) [] m j k a d h e = absurd (ground arith)
bind_items-get_elem? (n ∷ names) (x ∷ xs) m zero k a d h e =
    bind_items-other names xs (insert n x m) k (ground arith) ∙ ground (arith, eq_iff n k)
bind_items-get_elem? (n ∷ names) (x ∷ xs) m (suc j) k a d h e =
    bind_items-get_elem? names xs (insert n x m) j k a (ground arith) h e
