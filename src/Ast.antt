-- ===== src/Ast.antt =====
-- internal/ast: expressions, documents and definitions. Values that the source compares or keys maps
-- by pointer (documents, definitions, macro calls) carry a number, one for each pointer; source
-- positions are left out. unicode.IsUpper is the parameter of is_global.
pub mod Statement
pub mod Lexer
use Prim.Native.Char.{Char}
use geas.Prelude.{ℕ, Bool, false, List, [], ◌∷◌, String}
use geas.Lzint.{Value}

pub data ArithOp : Type 0 where
  arith_plus arith_minus arith_mul arith_div arith_mod : ArithOp
  arith_lshift arith_rshift arith_and arith_or arith_xor : ArithOp

unfoldable pub sign : ArithOp → String
sign arith_plus = "+"
sign arith_minus = "-"
sign arith_mul = "*"
sign arith_div = "/"
sign arith_mod = "%"
sign arith_lshift = "<<"
sign arith_rshift = ">>"
sign arith_and = "&"
sign arith_or = "|"
sign arith_xor = "^"

unfoldable pub precedence : ArithOp → ℕ
precedence arith_plus = 1
precedence arith_minus = 1
precedence arith_or = 1
precedence arith_xor = 1
precedence arith_mul = 2
precedence arith_div = 2
precedence arith_mod = 2
precedence arith_lshift = 2
precedence arith_rshift = 2
precedence arith_and = 2

-- A literal has its text, its value and whether it is a string; a label reference and a macro call
-- say whether they are written with a dot. The arguments of a call are a list of their own.
mutual
  pub data Expr : Type 0 where
    literal : String → Value → Bool → Expr
    label_ref : String → Bool → Expr
    variable : String → Expr
    macro_call : ℕ → String → Bool → Exprs → Expr
    binary : ArithOp → Expr → Expr → Expr
    unary : ArithOp → Expr → Expr
    group : Expr → Expr

  pub data Exprs : Type 0 where
    no_args : Exprs
    arg : Expr → Exprs → Exprs

abbrev pub args_list : Exprs → List Expr
args_list no_args = []
args_list (arg e es) = e ∷ args_list es

-- What is asked of a document that stands alone: its identity, its file, and whether it is the body
-- of an instruction macro.
pub record DocInfo : Type 0 where
  pub id : ℕ
  pub file : String
  pub is_macro : Bool

-- A document and its Parent chain.
pub data Document : Type 0 where
  toplevel : DocInfo → Document
  inside : DocInfo → Document → Document

abbrev pub info : Document → DocInfo
info (toplevel d) = d
info (inside d parent) = d

pub record LabelDef : Type 0 where
  pub id : ℕ
  pub ident : String
  pub dotted : Bool

pub record ExpressionMacroDef : Type 0 where
  pub id : ℕ
  pub ident : String
  pub params : List String
  pub body : Expr
  pub document : Document

pub record InstructionMacroDef : Type 0 where
  pub id : ℕ
  pub ident : String
  pub params : List String
  pub body : Document

unfoldable pub is_global : (Char → Bool) → String → Bool
is_global is_upper String.[] = false
is_global is_upper (String.◌∷◌ c s) = is_upper c
