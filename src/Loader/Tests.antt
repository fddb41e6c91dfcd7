-- ===== src/Loader/Tests.antt =====
-- Definitions in a document that is included by another one.
use Prim.Native.Char.{Char, code}
use geas.Prelude.{
  ◌≡◌, ◌≢◌, refl, Bool, true, false, ◌&&◌, [], ◌==◌, nat_eq, string_eq, some, none, String, leb,
  if◌then◌else◌,
}
use geas.Ast.{variable, Document, toplevel, inside, LabelDef, ExpressionMacroDef, is_global}
use geas.Loader.{
  Program, or_else, lookup_expr_macro, lookup_label, register_expr_macro, register_label,
}
use geas.Loader.Lookup.{lookup_expr_macro-register, lookup_label-register}

abbrev is_upper : Char → Bool
is_upper c = leb b'A' (code c) && leb (code c) b'Z'

abbrev main_doc : Document
main_doc = toplevel (record { id = 0; file = "main.eas"; is_macro = false })

abbrev included : Document
included = inside (record { id = 1; file = "lib.eas"; is_macro = false }) main_doc

abbrev program : Program
program = record {
  fork_name = "osaka";
  defs = λ _. none;
  global = record { label = λ _. none; instr_macro = λ _. none; expr_macro = λ _. none };
  macro_g_labels = λ _. false;
}

abbrev one : ExpressionMacroDef
one = record { id = 0; ident = "one"; params = []; body = variable "x"; document = included }

abbrev loop : LabelDef
loop = record { id = 0; ident = "Loop"; dotted = false }

abbrev other_loop : LabelDef
other_loop = record { id = 1; ident = "Loop"; dotted = true }

abbrev with_loop : Program
with_loop = record program {
  global = record program.global { label = λ n. if "Loop" == n then some loop else none };
}

abbrev with_one : Program
with_one = record program {
  defs = λ d.
      if 1 == d
      then some (record program.global { expr_macro = λ n. if "one" == n then some one else none })
      else none;
}

lookup_expr_macro-register_example :
    (lookup_expr_macro is_upper with_one "one" included ≡ some one)
    × ((name : String) (from : Document)
        → name ≢ "one"
        → lookup_expr_macro is_upper with_one name from
          ≡ lookup_expr_macro is_upper program name from)
unfolding register_expr_macro
lookup_expr_macro-register_example =
    lookup_expr_macro-register is_upper program with_one included one refl

-- The second definition of a global label is not an error, and is ignored.
lookup_label-register_example :
    (lookup_label is_upper with_loop "Loop" included).0
    ≡ (if is_global is_upper "Loop" then or_else (some loop) (some other_loop) else some other_loop)
unfolding register_label
lookup_label-register_example =
    lookup_label-register is_upper with_loop with_loop included other_loop refl
