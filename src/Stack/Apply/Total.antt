-- ===== src/Stack/Apply/Total.antt =====
-- Apply never panics on an instruction of the table: its inputs have distinct names.
use geas.Prelude.{
  sym, ◌+◌, ◌-◌, ℕ, zero, suc, ◌≡◌, ◌≢◌, refl, Option, none, some, List, [], ◌∷◌, String, insert,
  length, nat_eq, string_eq, arith,
}
use mathlib.Core.Path.{subst}
use geas.Evm.Op.{Op}
use geas.Evm.Defs.{opm}
use geas.Evm.Effect.{stack_in, stack_out}
use geas.Evm.Effect.Shape.{stack_in-distinct}
use geas.Stack.Names.{Unicode}
use geas.Stack.Defs.{Stack, Effect, grow_loop, grow_bottom, get}
use geas.Stack.Apply.{
  panicked, conclude, apply, consume, Consumed, consumed, underflow, repeated, with_item,
}
use geas.Stack.Apply.Inputs.{IsFresh, IsFresh-insert}
use geas.Stack.Apply.Moves.{IsFresh-empty}

grow_loop-op_items :
    (n : ℕ) (items : List ℕ) (s : Stack) → (grow_loop n items s).1.op_items ≡ s.op_items
unfolding grow_loop
grow_loop-op_items zero items s = refl
grow_loop-op_items (suc n) items s = grow_loop-op_items n _ _

grow_bottom-op_items : (n : ℕ) (s : Stack) → (grow_bottom n s).op_items ≡ s.op_items
unfolding grow_bottom
grow_bottom-op_items n s = grow_loop-op_items n [] s

get-op_items : (i : ℕ) (s : Stack) → (get i s).0.op_items ≡ s.op_items
unfolding get
get-op_items i s = ground (arith, grow_bottom-op_items (i + 1 - length s.stack) s)

abbrev IsNotRepeated : Consumed → Type 0
IsNotRepeated (repeated _) = ⊥
IsNotRepeated _ = Unit

with_item-IsNotRepeated :
    (total : ℕ) (r : Stack × Option ℕ) (next : ℕ → Stack → Consumed)
    → ((item : ℕ) → IsNotRepeated (next item r.0))
    → IsNotRepeated (with_item total r next)
with_item-IsNotRepeated total (s, none) next h = tt
with_item-IsNotRepeated total (s, some item) next h = h item

consume-IsNotRepeated :
    (total : ℕ) (names : List String) (i : ℕ) (s : Stack)
    → IsFresh names s.op_items
    → IsNotRepeated (consume total names i s)
unfolding consume
consume-IsNotRepeated total [] i s f = tt
consume-IsNotRepeated total (n ∷ names) i s f = rw f.0.0 (
    with_item-IsNotRepeated total (get i s) _ λ item. consume-IsNotRepeated total names (suc i) _ (
      subst (λ m. IsFresh names (insert n item m)) (sym (get-op_items i s))
        (IsFresh-insert n item names s.op_items f)))

conclude-ne-panicked :
    (u : Unicode) (ins outs : List String) (comment : Option (List String)) (r : Consumed)
    (k : String)
    → IsNotRepeated r
    → conclude u ins outs comment r ≢ panicked k
unfolding conclude
conclude-ne-panicked u ins outs comment (consumed s) k h e = cc
conclude-ne-panicked u ins outs comment (underflow s x) k h e = cc
conclude-ne-panicked u ins outs comment (repeated n) k h e = h

-- The interface that an instruction offers to Apply.
abbrev pub instruction : Op → Effect
instruction o = record { stack_in = stack_in o; stack_out = stack_out o }

-- An instruction of the table, with any immediate byte, comment and stack, is applied without a panic.
pub apply-ne-panicked :
    (u : Unicode) (n : String) (o : Op) (imm : ℕ) (comment : Option (List String)) (s : Stack)
    (k : String)
    → opm n ≡ some o
    → apply u (instruction o) imm comment s ≢ panicked k
unfolding apply
apply-ne-panicked u n o imm comment s k h =
    conclude-ne-panicked u (stack_in o imm) (stack_out o imm) comment _ k (
      consume-IsNotRepeated (length (stack_in o imm)) (stack_in o imm) 0 _
        (IsFresh-empty (stack_in o imm) (stack_in-distinct n o imm h)))
