-- ===== src/Ast/Lexer/Defs.antt =====
-- internal/ast/lexer.go: the state of the lexer, its tokens, and the functions that move it. A rune
-- is what utf8.DecodeRuneInString gives, a number and a width in bytes. The classes of package unicode
-- are parameters; none of them holds the 0 that `next` gives at the end of the input, so that a run
-- of a class ends there. The channel of tokens is the list of those sent.
use geas.Prelude.{ℕ, ◌+◌, ◌-◌, Bool, false, ◌||◌, List, [], ◌∷◌, ◌++◌, ◌==◌, nat_eq, if◌then◌else◌}

pub record Rune : Type 0 where
  pub code : ℕ
  pub width : ℕ

pub data TokenType : Type 0 where
  eof line_start line_end invalid_token identifier dotted_identifier : TokenType
  variable_identifier label_ref dotted_label_ref label dotted_label pc_label : TokenType
  number_literal string_literal open_paren close_paren comma directive : TokenType
  inst_macro_ident open_brace close_brace open_bracket close_bracket equals : TokenType
  arith comment : TokenType

pub record Token : Type 0 where
  pub text : List Rune
  pub line : ℕ
  pub column : ℕ
  pub typ : TokenType

pub record Classes : Type 0 where
  pub is_digit : ℕ → Bool
  pub is_letter : ℕ → Bool
  pub is_number : ℕ → Bool
  pub is_space : ℕ → Bool

-- `before` is input[:start] and `rest` is input[start:]. What lies between start and pos is an
-- argument of the functions.
pub record Lexer : Type 0 where
  pub before : List Rune
  pub rest : List Rune
  pub lineno : ℕ
  pub linestart : ℕ
  pub tokens : List Token

unfoldable pub widths : List Rune → ℕ
widths [] = 0
widths (r ∷ rs) = r.width + widths rs

-- With the text of the token, and the rest of the input behind it.
unfoldable pub emit_at : TokenType → ℕ → ℕ → List Rune → List Rune → Lexer → Lexer
emit_at typ line column text rest l = record l {
  before = l.before ++ text;
  rest = rest;
  tokens = l.tokens ++ (record { text = text; line = line; column = column; typ = typ }) ∷ [];
}

unfoldable pub column_of : Lexer → ℕ
unfolding widths
column_of l = widths l.before - l.linestart

unfoldable pub emit : TokenType → List Rune → List Rune → Lexer → Lexer
unfolding emit_at column_of
emit typ text rest l = emit_at typ l.lineno (column_of l) text rest l

unfoldable pub ignore : List Rune → List Rune → Lexer → Lexer
ignore text rest l = record l { before = l.before ++ text; rest = rest }

-- At a line end that has been emitted.
unfoldable pub new_line : Lexer → Lexer
unfolding widths
new_line l = record l { lineno = l.lineno + 1; linestart = widths l.before }

-- acceptRun: the runes of a class in front, and what follows.
unfoldable pub accept_run : (ℕ → Bool) → List Rune → List Rune × List Rune
accept_run class [] = ([], [])
accept_run class (r ∷ rs) =
    let more = accept_run class rs in if class r.code then (r ∷ more.0, more.1) else ([], r ∷ rs)

-- peek, compared with a rune that is not 0.
unfoldable pub peeks : ℕ → List Rune → Bool
peeks c [] = false
peeks c (r ∷ rs) = r.code == c

-- strings.ContainsRune
unfoldable pub one_of : List ℕ → ℕ → Bool
one_of [] c = false
one_of (x ∷ xs) c = x == c || one_of xs c

unfoldable pub drop_one : List Rune → List Rune × List Rune
drop_one [] = ([], [])
drop_one (r ∷ rs) = (r ∷ [], rs)

unfoldable pub skip_one : Lexer → Lexer
unfolding ignore drop_one
skip_one l = ignore (drop_one l.rest).0 (drop_one l.rest).1 l
