-- ===== src/Ast/Lexer.antt =====
-- internal/ast/lexer.go: the state functions of the lexer, and the loop that runs them.
pub mod Defs
pub mod Positions
pub mod Rounds
mod Tests
use geas.Prelude.{
  ℕ, zero, suc, ◌+◌, ◌-◌, ltb, leb, Bool, true, false, not, ◌&&◌, ◌||◌, Option, none, some, List,
  [], ◌∷◌, ◌++◌, ◌==◌, nat_eq, if◌then◌else◌, length,
}
use geas.Ast.Lexer.Defs.{
  Rune, TokenType, eof, line_start, line_end, invalid_token, identifier, dotted_identifier,
  variable_identifier, label_ref, dotted_label_ref, label, dotted_label, pc_label, number_literal,
  string_literal, open_paren, close_paren, comma, directive, inst_macro_ident, open_brace,
  close_brace, open_bracket, close_bracket, equals, arith, comment, Token, Classes, Lexer, widths,
  emit_at, column_of, emit, ignore, new_line, accept_run, peeks, one_of, drop_one, skip_one,
}

-- How the inside of a string ends: with what has been read, at the quote or where it breaks off.
pub record Inside : Type 0 where
  pub text : List Rune
  pub rest : List Rune
  pub lineno : ℕ
  pub linestart : ℕ
  pub closed : Bool

abbrev pub one_more : Rune → Inside → Inside
one_more r i = record i { text = r ∷ i.text }

abbrev pub stop_at : Bool → List Rune → ℕ → ℕ → Inside
stop_at closed rest line start = record {
  text = [];
  rest = rest;
  lineno = line;
  linestart = start;
  closed = closed;
}

-- The loop of lexInsideString at the offset `pos`; the flag says that a backslash was just read.
unfoldable pub inside : Bool → List Rune → ℕ → ℕ → ℕ → Inside
inside escaped [] pos line start = stop_at false [] line start
inside escaped (r ∷ rs) pos line start =
    let here = pos + r.width in
    let next_line = one_more r (inside false rs here (line + 1) here) in
    let next_rune = one_more r (inside false rs here line start) in
    let next_escaped = one_more r (inside true rs here line start) in
    if r.code == b'\n'
    then next_line
    else (if r.code == 0
        then stop_at false (r ∷ rs) line start
        else (if escaped
            then next_rune
            else (if r.code == b'\\'
                then next_escaped
                else (if r.code == b'"' then stop_at true (r ∷ rs) line start else next_rune))))

-- After the opening quote.
finish_string : Rune → Inside → Lexer → Lexer
unfolding ignore emit_at column_of skip_one
finish_string r i l =
    if i.closed
    then skip_one
        (record (emit_at string_literal l.lineno (column_of l + 1) i.text i.rest
          (ignore (r ∷ []) (i.text ++ i.rest) l)) { lineno = i.lineno; linestart = i.linestart })
    else record (emit_at invalid_token l.lineno (column_of l) (r ∷ i.text) i.rest l) {
      lineno = i.lineno;
      linestart = i.linestart;
    }

pub lex_inside_string : Rune → List Rune → Lexer → Lexer
unfolding finish_string inside widths
lex_inside_string r rs l =
    finish_string r (inside false rs (widths l.before + r.width) l.lineno l.linestart) l

not_newline : ℕ → Bool
not_newline c = not (c == b'\n')

-- lexComment
lex_comment : Rune → List Rune → Lexer → Lexer
unfolding accept_run not_newline emit
lex_comment r rs l = let run = accept_run not_newline rs in emit comment (r ∷ run.0) run.1 l

-- lexLshift, lexRshift
lex_shift : ℕ → Rune → List Rune → Lexer → Lexer
unfolding peeks drop_one emit
lex_shift c r rs l =
    if peeks c rs
    then emit arith (r ∷ (drop_one rs).0) (drop_one rs).1 l
    else emit invalid_token (r ∷ []) rs l

-- The runes that are a token each.
single : ℕ → Option TokenType
unfolding one_of
single c =
    if c == b'('
    then some open_paren
    else (if c == b')'
        then some close_paren
        else (if c == b'{'
            then some open_brace
            else (if c == b'}'
                then some close_brace
                else (if c == b'['
                    then some open_bracket
                    else (if c == b']'
                        then some close_bracket
                        else (if c == b','
                            then some comma
                            else (if c == b'=' then some equals else none)))))))

arith_chars : List ℕ
arith_chars = b'+' ∷ b'-' ∷ b'*' ∷ b'/' ∷ b'&' ∷ b'|' ∷ b'^' ∷ []

with_eof : Option Lexer → Option (List Token)
unfolding emit
with_eof none = none
with_eof (some l) = some (emit eof [] [] l).tokens

module _ (cl : Classes) where
  is_hex : ℕ → Bool
  is_hex c = cl.is_digit c || ((leb b'a' c && leb c b'f') || (leb b'A' c && leb c b'F'))

  is_ident_begin : ℕ → Bool
  is_ident_begin c = c == b'_' || cl.is_letter c

  is_ident : ℕ → Bool
  is_ident c = c == b'_' || (cl.is_letter c || cl.is_number c)

  -- A run of identifier runes, emitted without what came before it.
  emit_ident : TokenType → Lexer → Lexer
  unfolding accept_run is_ident emit
  emit_ident typ l = let run = accept_run is_ident l.rest in emit typ run.0 run.1 l

  -- lexLabel
  lex_label : Rune → List Rune → Lexer → Lexer
  unfolding ignore peeks emit_ident skip_one
  lex_label r rs l =
      let q = ignore (r ∷ []) rs l in
      if peeks b'.' rs then emit_ident dotted_label_ref (skip_one q) else emit_ident label_ref q

  -- lexVariable
  lex_variable : Rune → List Rune → Lexer → Lexer
  unfolding ignore emit_ident
  lex_variable r rs l = emit_ident variable_identifier (ignore (r ∷ []) rs l)

  -- lexPreprocessor
  lex_preprocessor : Rune → List Rune → Lexer → Lexer
  unfolding accept_run is_ident emit
  lex_preprocessor r rs l = let run = accept_run is_ident rs in emit directive (r ∷ run.0) run.1 l

  begins_ident : List Rune → Bool
  unfolding is_ident_begin
  begins_ident [] = false
  begins_ident (r ∷ rs) = is_ident_begin r.code

  -- lexPercent
  lex_percent : Rune → List Rune → Lexer → Lexer
  unfolding begins_ident ignore emit_ident emit
  lex_percent r rs l =
      if begins_ident rs
      then emit_ident inst_macro_ident (ignore (r ∷ []) rs l)
      else emit arith (r ∷ []) rs l

  -- The digits of a number, with an x in front of hexadecimal ones.
  digits : List Rune → List Rune × List Rune
  unfolding accept_run is_hex
  digits [] = ([], [])
  digits (r ∷ rs) =
      let hex = accept_run is_hex rs in
      if r.code == b'x' || r.code == b'X'
      then (r ∷ hex.0, hex.1)
      else accept_run cl.is_digit (r ∷ rs)

  -- lexNumber
  lex_number : Rune → List Rune → Lexer → Lexer
  unfolding digits accept_run is_hex peeks emit skip_one
  lex_number r rs l =
      let run = digits rs in
      let more = accept_run is_hex run.1 in
      if peeks b':' more.1
      then skip_one (emit pc_label (r ∷ (run.0 ++ more.0)) more.1 l)
      else emit number_literal (r ∷ run.0) run.1 l

  -- lexIdentifier after a first rune that is a dot, or is not.
  lex_dotted : Rune → List Rune → Lexer → Lexer
  unfolding ignore accept_run is_ident peeks emit_ident skip_one
  lex_dotted r rs l =
      let q = ignore (r ∷ []) rs l in
      if peeks b':' (accept_run is_ident rs).1
      then skip_one (emit_ident dotted_label q)
      else emit_ident dotted_identifier q

  lex_undotted : Rune → List Rune → Lexer → Lexer
  unfolding accept_run is_ident peeks emit skip_one
  lex_undotted r rs l =
      let run = accept_run is_ident rs in
      if peeks b':' run.1
      then skip_one (emit label (r ∷ run.0) run.1 l)
      else emit identifier (r ∷ run.0) run.1 l

  -- The cases of lexNext from the numbers on.
  lex_other : Rune → List Rune → Lexer → Lexer
  unfolding is_ident_begin lex_number lex_dotted lex_undotted lex_shift lex_percent one_of emit
      new_line ignore arith_chars
  lex_other r rs l =
      if cl.is_digit r.code
      then lex_number r rs l
      else (if r.code == b'.'
          then lex_dotted r rs l
          else (if is_ident_begin r.code
              then lex_undotted r rs l
              else (if r.code == b'<' || r.code == b'>'
                  then lex_shift r.code r rs l
                  else (if r.code == b'%'
                      then lex_percent r rs l
                      else (if one_of arith_chars r.code
                          then emit arith (r ∷ []) rs l
                          else (if r.code == b'\n'
                              then emit line_start [] rs (new_line (emit line_end (r ∷ []) rs l))
                              else (if cl.is_space r.code
                                  then ignore (r ∷ []) rs l
                                  else emit invalid_token (r ∷ []) rs l)))))))

  lex_token : Option TokenType → Rune → List Rune → Lexer → Lexer
  unfolding emit lex_other lex_comment lex_label lex_variable lex_inside_string lex_preprocessor
  lex_token (some typ) r rs l = emit typ (r ∷ []) rs l
  lex_token none r rs l =
      if r.code == b';'
      then lex_comment r rs l
      else (if r.code == b'@'
          then lex_label r rs l
          else (if r.code == b'$'
              then lex_variable r rs l
              else (if r.code == b'"'
                  then lex_inside_string r rs l
                  else (if r.code == b'#' then lex_preprocessor r rs l else lex_other r rs l))))

  -- One round of lexNext, with the state function that it turns to.
  unfoldable pub lex_next : Rune → List Rune → Lexer → Lexer
  unfolding lex_token single
  lex_next r rs l = lex_token (single r.code) r rs l

  -- The loop of runLexer.
  unfoldable pub lex_all : ℕ → Lexer → List Rune → Option Lexer
  unfolding lex_next
  lex_all fuel l [] = some l
  lex_all zero l (r ∷ rs) = none
  lex_all (suc fuel) l (r ∷ rs) = let q = lex_next r rs l in lex_all fuel q q.rest

  unfoldable pub run_lexer : List Rune → Option (List Token)
  unfolding emit lex_all with_eof
  run_lexer source = with_eof (
      lex_all (length source)
        (emit line_start [] source
          (record { before = []; rest = source; lineno = 1; linestart = 0; tokens = [] }))
        source)
