-- ===== src/Stack/Apply.antt =====
-- internal/stack/stack.go: Apply, the effect of one instruction on the symbolic stack.
pub mod Inputs
pub mod Outputs
pub mod Moves
pub mod Total
use mathlib.Core.Option
use geas.Prelude.{
  is_some, ℕ, zero, suc, Bool, true, false, ◌||◌, Option, none, some, List, [], ◌∷◌, String, ◌==◌,
  nat_eq, string_eq, if◌then◌else◌, Map, empty, insert, length, drop,
}
use geas.Set.{no_keys, add}
use geas.Stack.Names.{Unicode, has_wildcard}
use geas.Stack.Defs.{Stack, Effect, StackError, op_underflow, push, get}
use geas.Stack.Check.{run_check}

-- `panicked` is the panic of an operation that names an input twice.
pub data Applied : Type 0 where
  done : Stack → Option StackError → Applied
  panicked : String → Applied

-- The result of the loop over the inputs.
pub data Consumed : Type 0 where
  consumed : Stack → Consumed
  underflow : Stack → StackError → Consumed
  repeated : String → Consumed

-- `val, ok := s.get(i)`, and the error if there is no such item.
abbrev pub with_item : ℕ → Stack × Option ℕ → (ℕ → Stack → Consumed) → Consumed
with_item total (s, none) next = underflow s (op_underflow total (length s.stack))
with_item total (s, some item) next = next item s

-- The loop that remembers the inputs by name; `total` is the number of inputs.
unfoldable pub consume : ℕ → List String → ℕ → Stack → Consumed
consume total [] i s = consumed s
consume total (name ∷ names) i s =
    let next = λ (item : ℕ) (t : Stack).
      consume total names (suc i) (record t { op_items = insert name item t.op_items }) in
    if is_some (s.op_items name) then repeated name else with_item total (get i s) next

push_output : String → Stack → Stack
push_output name s = elim (s.op_items name) [
  | some item ↦ push item s
  | none ↦
      let item = suc s.counter in
      let s' = push item (record s { counter = item }) in
      record s' { op_new_items = add item s'.op_new_items }
]

-- The last output is pushed first.
unfoldable pub push_outputs : List String → Stack → Stack
unfolding push_output
push_outputs [] s = s
push_outputs (name ∷ names) s = push_output name (push_outputs names s)

index_of : List String → String → Option ℕ
index_of [] a = none
index_of (x ∷ xs) a = if x == a then some 0 else Option.map suc (index_of xs a)

-- The position of the next equal output, for each position.
unfoldable pub copy_pos : List String → Map ℕ ℕ
unfolding index_of
copy_pos [] i = none
copy_pos (x ∷ xs) zero = Option.map suc (index_of xs x)
copy_pos (x ∷ xs) (suc i) = Option.map suc (copy_pos xs i)

comment_grows : Option (List String) → Bool
comment_grows none = false
comment_grows (some c) = has_wildcard c

unfoldable pub begin_apply : Option (List String) → Stack → Stack
unfolding comment_grows
begin_apply comment s = record s {
  wildcard = s.wildcard || comment_grows comment;
  op_items = empty;
}

-- The stack after the operation, before its comment is looked at.
unfoldable pub transform : List String → List String → Stack → Stack
transform inputs outputs s =
    let s₁ = record s { stack = drop (length inputs) s.stack; op_new_items = no_keys } in
    let s₂ = push_outputs outputs s₁ in record s₂ { op_copy_pos = copy_pos outputs }

conclude : Unicode → List String → List String → Option (List String) → Consumed → Applied
conclude u inputs outputs comment (repeated name) = panicked name
conclude u inputs outputs comment (underflow s e) = done s (some e)
conclude u inputs outputs comment (consumed s) =
    let (s', e) = run_check u comment true (transform inputs outputs s) in done s' e

unfoldable pub apply : Unicode → Effect → ℕ → Option (List String) → Stack → Applied
unfolding conclude begin_apply
apply u o imm comment s =
    conclude u (o.stack_in imm) (o.stack_out imm) comment
      (consume (length (o.stack_in imm)) (o.stack_in imm) 0 (begin_apply comment s))
