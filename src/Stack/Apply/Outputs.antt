-- ===== src/Stack/Apply/Outputs.antt =====
-- The loop of Apply over the outputs.
use geas.Prelude.{
  ℕ, zero, suc, ◌≤◌, ◌<◌, ◌≡◌, refl, ap, ◌∙◌, Option, none, some, List, [], ◌∷◌, ◌++◌, String,
  nat_eq, string_eq, length, get_elem?, arith,
}
use geas.Stack.Defs.{Stack, push}
use geas.Stack.Apply.{push_output, push_outputs}

push_output-fields :
    (n : String) (s : Stack)
    → ((push_output n s).op_items ≡ s.op_items)
      × (s.counter ≤ (push_output n s).counter)
      × ((push_output n s).wildcard ≡ s.wildcard)
      × ((push_output n s).inferred ≡ s.inferred)
unfolding push_output push
push_output-fields n s = (ground arith, ground arith, ground arith, ground arith)

pub push_outputs-fields :
    (names : List String) (s : Stack)
    → ((push_outputs names s).op_items ≡ s.op_items)
      × (s.counter ≤ (push_outputs names s).counter)
      × ((push_outputs names s).wildcard ≡ s.wildcard)
      × ((push_outputs names s).inferred ≡ s.inferred)
unfolding push_outputs
push_outputs-fields [] s = (refl, omega arith, refl, refl)
push_outputs-fields (n ∷ names) s =
    let (a, b, c, d) = push_outputs-fields names s in
    let (e, f, g, h) = push_output-fields n (push_outputs names s) in
    (e ∙ a, omega arith, g ∙ c, h ∙ d)

output_item : Option ℕ → ℕ → ℕ
output_item none fresh = fresh
output_item (some item) fresh = item

-- The items of the outputs, top first.
pub pushed : List String → Stack → List ℕ
pushed [] s = []
pushed (n ∷ names) s =
    output_item (s.op_items n) (suc (push_outputs names s).counter) ∷ pushed names s

push_output-stack :
    (n : String) (s : Stack)
    → (push_output n s).stack ≡ output_item (s.op_items n) (suc s.counter) ∷ s.stack
unfolding push_output output_item push
push_output-stack n s = ground arith

pub push_outputs-stack :
    (names : List String) (s : Stack) → (push_outputs names s).stack ≡ pushed names s ++ s.stack
unfolding push_outputs pushed
push_outputs-stack [] s = refl
push_outputs-stack (n ∷ names) s = rw (
  push_output-stack n (push_outputs names s),
  (push_outputs-fields names s).0,
  push_outputs-stack names s,
)

pub length-pushed : (names : List String) (s : Stack) → length (pushed names s) ≡ length names
unfolding pushed
length-pushed [] s = refl
length-pushed (n ∷ names) s = ap suc (length-pushed names s)

-- An output that is named like an input is that input's item.
pub pushed-bound :
    (names : List String) (s : Stack) (i : ℕ) (n : String) (a : ℕ)
    → get_elem? names i ≡ some n
    → s.op_items n ≡ some a
    → get_elem? (pushed names s) i ≡ some a
unfolding pushed output_item
pushed-bound [] s i n a h e = absurd (ground arith)
pushed-bound (k ∷ names) s zero n a h e =
    let same : k ≡ n = ground arith in rw (ap s.op_items same ∙ e)
pushed-bound (k ∷ names) s (suc i) n a h e = pushed-bound names s i n a h e

-- Any other output is an item that was never used before.
pub pushed-new :
    (names : List String) (s : Stack) (i : ℕ) (n : String) (a : ℕ)
    → get_elem? names i ≡ some n
    → s.op_items n ≡ none
    → get_elem? (pushed names s) i ≡ some a
    → s.counter < a
unfolding pushed output_item
pushed-new [] s i n a h e q = absurd (ground arith)
pushed-new (k ∷ names) s zero n a h e q =
    let same : k ≡ n = ground arith in
    let unbound = ap s.op_items same ∙ e in ground (arith, unbound, push_outputs-fields names s)
pushed-new (k ∷ names) s (suc i) n a h e q = pushed-new names s i n a h e q
