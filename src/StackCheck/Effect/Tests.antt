-- ===== src/StackCheck/Effect/Tests.antt =====
-- Inferred names that repeat.
use geas.Prelude.{◌≡◌, refl, true, false, [], ◌∷◌}
use geas.Evm.Defs.{has_duplicate}
use geas.StackCheck.Effect.{dedup, effect_from_stack, numbered}
use geas.StackCheck.Effect.Distinct.{effect_from_stack-distinct, has_duplicate-dedup}

effect_from_stack-distinct_example :
    has_duplicate (effect_from_stack ("a" ∷ "b" ∷ "a" ∷ []) []).stack_in ≡ false
effect_from_stack-distinct_example =
    effect_from_stack-distinct ("a" ∷ "b" ∷ "a" ∷ []) [] (refl, (refl, (refl, tt)))

has_duplicate-dedup_example : has_duplicate (dedup (numbered "a" 1 ∷ "a" ∷ "a" ∷ [])) ≡ true
has_duplicate-dedup_example = has_duplicate-dedup "a" refl
