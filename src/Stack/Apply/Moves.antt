-- ===== src/Stack/Apply/Moves.antt =====
-- What Apply does to the items of a stack that does not extend itself downward.
use geas.Prelude.{
  ◌||◌, ℕ, ◌+◌, ◌<◌, ◌≡◌, refl, false, none, some, List, [], ◌∷◌, String, nat_eq, string_eq, empty,
  length, get_elem?, drop, arith, All,
}
use geas.Evm.Defs.{contains, has_duplicate}
use geas.Set.{no_keys}
use geas.Stack.Names.{Unicode}
use geas.Stack.Defs.{Stack, Effect, op_underflow}
use geas.Stack.Apply.{done, apply, push_outputs, copy_pos}
use geas.Stack.Apply.Inputs.{IsExact, IsFresh, bind_items, consume-underflow}

pub IsFresh-empty : (names : List String) → has_duplicate names ≡ false → IsFresh names empty
IsFresh-empty names h = (go names, h)
  where
    go : (l : List String) → All (λ n. empty {K = String} {V = ℕ} n ≡ none) l
    go [] = tt
    go (n ∷ l) = (refl, go l)

-- The stack just before the outputs are pushed, and the stack that Apply leaves if there is no
-- comment.
abbrev popped : Effect → ℕ → Stack → Stack
popped o imm s = record s {
  wildcard = s.wildcard || false;
  op_items = bind_items (o.stack_in imm) s.stack empty;
  stack = drop (length (o.stack_in imm)) s.stack;
  op_new_items = no_keys;
}

moved : Effect → ℕ → Stack → Stack
moved o imm s = record (push_outputs (o.stack_out imm) (popped o imm s)) {
  op_copy_pos = copy_pos (o.stack_out imm);
}

module _ (u : Unicode) (o : Effect) (imm : ℕ) (s : Stack) where
  begin_apply-IsExact :
      IsExact s → IsExact (record s { wildcard = s.wildcard || false; op_items = empty })
  begin_apply-IsExact x = record { no_wildcard = ground arith; not_inferred = x.not_inferred }

  -- With fewer items than the operation consumes, on a stack with neither wildcard nor inference, and
  -- with no comment, Apply of an operation that names no input twice reports the underflow, with both
  -- numbers, and leaves the items as they were.
  pub apply_underflow :
      IsExact s
      → has_duplicate (o.stack_in imm) ≡ false
      → length s.stack < length (o.stack_in imm)
      → (s' : Stack) × (apply u o imm none s
          ≡ done s' (some (op_underflow (length (o.stack_in imm)) (length s.stack))))
        × (s'.stack ≡ s.stack)
  unfolding apply
  apply_underflow x d h =
      let (m, q) =
        consume-underflow (length (o.stack_in imm)) (o.stack_in imm) 0
          (record s { wildcard = s.wildcard || false; op_items = empty }) (begin_apply-IsExact x)
          (IsFresh-empty (o.stack_in imm) d) h in
      (record s { wildcard = s.wildcard || false; op_items = m }, rw q refl, refl)

-- Where the items of the new stack come from: below the outputs the old items follow in their order;
-- an output named like an input is the same item as that input; and any other output is an item
-- whose number was never used before.
pub record IsMoved (ins outs : List String) (s s' : Stack) : Type 0 where
  pub below : (j : ℕ) → get_elem? s'.stack (length outs + j) ≡ get_elem? s.stack (length ins + j)
  pub kept :
      (i j : ℕ) (n : String)
      → get_elem? outs i ≡ some n
      → get_elem? ins j ≡ some n
      → get_elem? s'.stack i ≡ get_elem? s.stack j
  pub made :
      (i : ℕ) (n : String) (a : ℕ)
      → get_elem? outs i ≡ some n
      → contains ins n ≡ false
      → get_elem? s'.stack i ≡ some a
      → s.counter < a
  pub depth : length s'.stack + length ins ≡ length s.stack + length outs
