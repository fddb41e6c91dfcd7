-- ===== src/StackCheck/Effect.antt =====
-- internal/stackcheck/effect.go: the stack effect of a code sequence. The jumps that leave it, and
-- whether it is terminal, are set by the caller.
pub mod Distinct
mod Tests
use Prim.Native.String.{◌++◌ as append}
use geas.Prelude.{
  ℕ, zero, suc, ◌+◌, Bool, true, false, Option, none, some, List, [], ◌∷◌, String, ltb, ◌==◌,
  string_eq, if◌then◌else◌,
}
use geas.Ast.Statement.{Statement}
use geas.Evm.Effect.{decimal}

pub record ExternalJump : Type 0 where
  pub target : String
  pub items : List String
  pub wild : Bool
  pub jump_st : Option Statement

pub record StackEffect : Type 0 where
  pub stack_in : List String
  pub stack_out : List String
  pub jumps : List ExternalJump
  pub terminal : Bool

-- "%s#%d"
unfoldable pub numbered : String → ℕ → String
numbered name n = append name (append "#" (decimal n))

-- The new name after `n` names that are the same.
unfoldable pub renamed : String → ℕ → String
unfolding numbered
renamed name zero = name
renamed name (suc n) = numbered name (suc n)

-- `seen[name]++`
unfoldable pub count_one : String → (String → ℕ) → String → ℕ
count_one name seen other = if name == other then suc (seen name) else seen other

-- The loop, with the counts of the names before. A missing key counts 0.
unfoldable pub dedup_loop : (String → ℕ) → List String → List String
unfolding renamed count_one
dedup_loop seen [] = []
dedup_loop seen (name ∷ names) = renamed name (seen name) ∷ dedup_loop (count_one name seen) names

unfoldable pub dedup : List String → List String
unfolding dedup_loop
dedup names = dedup_loop (λ _. 0) names

unfoldable pub effect_from_stack : List String → List String → StackEffect
unfolding dedup
effect_from_stack inferred_inputs items = record {
  stack_in = dedup inferred_inputs;
  stack_out = items;
  jumps = [];
  terminal = false;
}
