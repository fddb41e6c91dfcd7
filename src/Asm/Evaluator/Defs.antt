-- ===== src/Asm/Evaluator/Defs.antt =====
-- asm/evaluator.go, asm/error.go: what the evaluator keeps while it works, and how it fails. A Go
-- function with an error result is a function from the state to a Result.
use geas.Prelude.{ℕ, Bool, true, false, Option, none, List, String, Map}
use geas.Ast.{Document, Expr}
use geas.Prelude.Int.{ℤ}
use geas.Lzint
use geas.Lzint.{Value}

-- `unassigned_label` is the error of a label that has no PC yet.
pub data EvalError : Type 0 where
  unassigned_label : String → Bool → EvalError
  undefined_label dotted_reference : String → Bool → EvalError
  undefined_variable undefined_builtin undefined_macro recursive_call : String → EvalError
  argument_count : String → ℕ → EvalError
  division_by_zero modulo_by_zero : EvalError
  negative_lshift negative_rshift lshift_overflow rshift_overflow : EvalError
  no_bytes : Lzint.BytesError → EvalError
  selector_literal selector_invalid : EvalError
  address_literal address_invalid address_checksum : EvalError
  escapes_root : EvalError

-- A warning about a deprecated macro, or a message of the compiler that assemble() started.
pub data Message : Type 0 where
  deprecated_macro : ℕ → String → String → Message
  from_subcompiler : ℕ → Message

-- The sets are lists of the numbers of their members. The key of `assembled` is the number of a
-- document and a file name.
pub record State : Type 0 where
  pub in_stack : List ℕ
  pub used_labels : List ℕ
  pub deprecation : List ℕ
  pub assembled : ℕ → String → Option Value
  pub messages : List Message

-- `no_return` is the end of an evaluation in which assemble() compiles a file and the compiler it
-- starts does not return, and `no_memory` that of one in which math/big panics on a shift.
pub data Failure : Type 0 where
  error : EvalError → Failure
  panic out_of_fuel : Failure
  no_return : String → Failure
  no_memory : ℤ → ℕ → Failure

pub data Result (A : Type 0) : Type 0 where
  ok : A → State → Result A
  fail : Failure → State → Result A

abbrev pub M : Type 0 → Type 0
M A = State → Result A

abbrev pub then_do : {A B : Type 0} → Result A → (A → M B) → Result B
then_do (ok a s) f = f a s
then_do (fail e s) f = fail e s

infixl 5 ◌>>=◌ ◌>>◌
abbrev pub ◌>>=◌ : {A B : Type 0} → M A → (A → M B) → M B
◌>>=◌ m f s = then_do (m s) f

abbrev pub ◌>>◌ : {B : Type 0} → M (Unit {0}) → M B → M B
◌>>◌ m k = m >>= λ _. k

abbrev pub return : {A : Type 0} → A → M A
return a s = ok a s

abbrev pub raise : {A : Type 0} → EvalError → M A
raise e s = fail (error e) s

abbrev pub panics : {A : Type 0} → M A
panics s = fail panic s

abbrev pub guard : Bool → EvalError → M (Unit {0})
guard true e = return tt
guard false e = raise e

-- `defer`: the state is changed however the function ends.
abbrev pub restore : {A : Type 0} → (State → State) → Result A → Result A
restore f (ok a s) = ok a (f s)
restore f (fail e s) = fail e (f s)

-- The definitions and arguments that an expression sees. The variables are those of an expression
-- macro; the arguments of an instruction macro come with the section of the call.
mutual
  pub data Section : Type 0 where
    section : Document → MacroArgs → Section

  pub data MacroArgs : Type 0 where
    no_macro_args : MacroArgs
    macro_args : List String → List Expr → Section → MacroArgs

pub record Env : Type 0 where
  pub doc : Document
  pub macro_args : MacroArgs
  pub variables : Map String Value

unfoldable pub new_eval_environment : Section → Env
new_eval_environment (section doc args) = record {
  doc = doc;
  macro_args = args;
  variables = λ _. none;
}
