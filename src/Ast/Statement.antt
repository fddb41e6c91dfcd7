-- ===== src/Ast/Statement.antt =====
-- internal/ast/ast.go: the statements of a document. A statement has the text of the comment on its
-- line; its position is left out. The number of an #include stands for its pointer, the key of the
-- included document.
use Prim.Native.Char.{Char, code}
use geas.Prelude.{ℕ, Bool, false, Option, List, String, ◌==◌, nat_eq, if◌then◌else◌}
use geas.Ast.{Expr, Exprs, LabelDef, ExpressionMacroDef, InstructionMacroDef}

pub data StatementKind : Type 0 where
  opcode : String → Option Expr → List ℕ → ℕ → StatementKind
  label_def : LabelDef → StatementKind
  pc_label : ℕ → String → StatementKind
  instr_macro_call : String → Exprs → StatementKind
  include : ℕ → String → StatementKind
  assemble : String → StatementKind
  pragma : String → String → StatementKind
  bytes : Expr → Option LabelDef → StatementKind
  comment_only : String → StatementKind
  expr_macro_def : ExpressionMacroDef → StatementKind
  instr_macro_def : InstructionMacroDef → StatementKind

pub record Statement : Type 0 where
  pub kind : StatementKind
  pub comment : Option String
  pub starts_block : Bool

-- strings.TrimLeft(text, ";")
unfoldable pub trim_semicolons : String → String
trim_semicolons String.[] = String.[]
trim_semicolons (String.◌∷◌ c s) =
    let rest = trim_semicolons s in if code c == b';' then rest else String.◌∷◌ c s

unfoldable pub opens_bracket : (Char → Bool) → String → Bool
opens_bracket is_space String.[] = false
opens_bracket is_space (String.◌∷◌ c s) =
    let rest = opens_bracket is_space s in if is_space c then rest else code c == b'['

-- IsStackComment: the first character past semicolons and white space is a bracket.
unfoldable pub is_stack_comment : (Char → Bool) → String → Bool
unfolding trim_semicolons opens_bracket
is_stack_comment is_space text = opens_bracket is_space (trim_semicolons text)
