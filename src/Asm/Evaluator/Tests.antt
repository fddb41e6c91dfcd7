-- ===== src/Asm/Evaluator/Tests.antt =====
-- Macros that call themselves, and an expression with a label.
use Prim.Native.Char.{Char}
use geas.Prelude.{
  ◌+◌, ◌<◌, ◌≡◌, ltb, ◌⊎◌, refl, Bool, false, none, some, [], ◌∷◌, String, ◌==◌, string_eq,
  if◌then◌else◌, arith,
}
use geas.Prelude.Int.{ℤ, pos, negsuc, is_negative, magnitude}
use geas.Prelude.Big.{◌+ℤ◌, ◌*ℤ◌}
use geas.Asm.Evaluator.Arith.{binary_op}
use geas.Asm.Evaluator.Arith.Division.{binary_op_divides}
use geas.Lzint.{from_int}
use geas.Ast.{
  arith_plus, arith_mul, arith_div, arith_mod, Expr, literal, label_ref, variable, macro_call,
  binary, no_args, arg, Document, toplevel, ExpressionMacroDef,
}
use geas.Asm.Evaluator.Defs.{
  State, ok, fail, error, recursive_call, unassigned_label, Env, no_macro_args,
}
use geas.Asm.Evaluator.Builtins.{Services}
use geas.Asm.Evaluator.{Context, CompilerLabel, eval, register_labels}
use geas.Asm.Evaluator.Agree.Labels.{eval-register_labels}

abbrev no_services : Services
no_services = record {
  keccak256 = λ b. b;
  sha256 = λ b. b;
  is_selector = λ _. false;
  address_of = λ _. none;
  valid_checksum = λ _. false;
  text_bytes = λ _. [];
  bytes_text = λ _. "";
  clean_join = λ base name. name;
  compile_file = λ file. if file == "main.eas" then none else some ([], []);
  can_shift = λ a n. ltb n 1024;
}

abbrev main_doc : Document
main_doc = toplevel (record { id = 0; file = "main.eas"; is_macro = false })

-- #define f(x) = $x * f($x)
abbrev loop_macro : ExpressionMacroDef
loop_macro = record {
  id = 7;
  ident = "f";
  params = "x" ∷ [];
  body = binary arith_mul (variable "x") (macro_call 1 "f" false (arg (variable "x") no_args));
  document = main_doc;
}

abbrev context : Context
context = record {
  services = no_services;
  overrides = λ name. if "f" == name then some loop_macro else none;
  prog = record {
    fork_name = "osaka";
    defs = λ _. none;
    global = record { label = λ _. none; instr_macro = λ _. none; expr_macro = λ _. none };
    macro_g_labels = λ _. false;
  };
  global_labels =
      λ name. if "L" == name then some (record { id = 3; ident = "L"; dotted = false }) else none;
  label_instr = λ _ _. none;
  labels_valid = false;
  pc = λ _. 0;
}

abbrev lower : Char → Bool
lower c = false

abbrev env : Env
env = record { doc = main_doc; macro_args = no_macro_args; variables = λ _. none }

abbrev start : State
start = record {
  in_stack = [];
  used_labels = [];
  deprecation = [];
  assembled = λ _ _. none;
  messages = [];
}

abbrev three : Expr
three = literal "3" (from_int (pos 3)) false

abbrev call_f : Expr
call_f = macro_call 0 "f" false (arg three no_args)

recursion-is-refused :
    eval lower context 20 env call_f start ≡ fail (error (recursive_call "f")) start
unfolding eval
recursion-is-refused = refl

abbrev label_l : CompilerLabel
label_l = record { doc = 0; def = record { id = 3; ident = "L"; dotted = false }; instr = 2 }

abbrev sum_with_label : Expr
sum_with_label = binary arith_plus three (label_ref "L" false)

eval-register_labels_example :
    ((ident : String) × (dotted : Bool) × (t : State) × (eval lower context 5 env sum_with_label
          start
        ≡ fail (error (unassigned_label ident dotted)) t))
    ⊎ (eval lower context 5 env sum_with_label start
        ≡ eval lower
            (record (register_labels lower (label_l ∷ []) context) { pc = λ i. 10 + i })
            5
            env
            sum_with_label
            start)
eval-register_labels_example =
    eval-register_labels lower context (label_l ∷ []) (λ i. 10 + i) 5 env sum_with_label start refl

-- -7 = -4 * 2 + 1
binary_op_divides_example :
    (q r : ℤ) × (binary_op no_services.can_shift arith_div (negsuc 6) (pos 2) start ≡ ok q start)
    × (binary_op no_services.can_shift arith_mod (negsuc 6) (pos 2) start ≡ ok r start)
    × (negsuc 6 ≡ q *ℤ pos 2 +ℤ r)
    × (is_negative r ≡ false)
    × (magnitude r < magnitude (pos 2))
binary_op_divides_example =
    binary_op_divides no_services.can_shift (negsuc 6) (pos 2) start λ e. omega arith
