-- ===== src/Asm/Evaluator/Total/Eval.antt =====
-- The fuel that eval needs, by the measure.
use Prim.Native.Char.{Char}
use geas.Prelude.{ℕ, ◌≡◌, Bool, true, some, List, String}
use geas.Ast.{ExpressionMacroDef}
use geas.Asm.Evaluator.Defs.{Env}
use geas.Asm.Evaluator.Builtins.{member}
use geas.Asm.Evaluator.{Context, find_expr_macro}
use geas.Asm.Evaluator.Total.{Fits}

-- The macros that a name can stand for are among `ids`, and their bodies are of size `most` at most.
abbrev pub IsBounded : (Char → Bool) → Context → List ℕ → ℕ → Type 0
IsBounded is_upper c ids most =
    (env : Env) (name : String) (def : ExpressionMacroDef)
    → find_expr_macro is_upper c env name ≡ some def
    → (member def.id ids ≡ true) × Fits most def.body
