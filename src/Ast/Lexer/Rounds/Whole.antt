-- ===== src/Ast/Lexer/Rounds/Whole.antt =====
-- One round of the lexer, and the loop.
use geas.Prelude.{
  ℕ, zero, suc, ◌+◌, ◌≡◌, ◌≤◌, ◌∙◌, refl, ap, true, false, ◌||◌, Option, none, some, List, [], ◌∷◌,
  ◌++◌, ◌==◌, nat_eq, nat_beq_iff, All, arith, Bool-cases, inl, inr, length, length-append,
}
use mathlib.Core.Path.{subst}
use geas.Ast.Lexer.Defs.{
  Rune, TokenType, eof, line_start, invalid_token, arith as arith_token, Token, Classes, Lexer,
  widths, emit_at, emit, one_of,
}
use geas.Ast.Lexer.{
  is_ident_begin, single, arith_chars, lex_other, lex_token, lex_next, lex_all, with_eof, run_lexer,
}
use geas.Ast.Lexer.Positions.{
  is_newline, newlines, since_from, StandsIn, LexerInv, emit-LexerInv, newline-LexerInv,
  no_newlines,
}
use geas.Ast.Lexer.Rounds.{
  SkipNewline, emit_one, ignore_one, if-Inv, lex_comment-LexerInv, lex_shift-LexerInv,
  lex_label-LexerInv, lex_variable-LexerInv, lex_preprocessor-LexerInv, lex_percent-LexerInv,
  lex_number-LexerInv, lex_dotted-LexerInv, lex_undotted-LexerInv,
}
use geas.Ast.Lexer.Rounds.Strings.{lex_inside_string-LexerInv}

-- A quote is one byte long.
abbrev pub QuoteIsByte : Rune → Type 0
QuoteIsByte r = r.code ≡ b'"' → r.width ≡ 1

All-at {ℓ κ} :
    {A : Type ℓ} (P : A → Type κ) (xs : List A) (x : A) (ys : List A) → All P (xs ++ x ∷ ys) → P x
All-at P [] x ys all = all.0
All-at P (z ∷ zs) x ys all = All-at P zs x ys all.1

other_line : (c d : ℕ) → (c == d) ≡ true → (d == b'\n') ≡ false → (c == b'\n') ≡ false
other_line c d h k = ground arith

shift_line : (c : ℕ) → (c == b'<' || c == b'>') ≡ true → (c == b'\n') ≡ false
shift_line c h = ground arith

arith_line : (c : ℕ) → one_of arith_chars c ≡ true → (c == b'\n') ≡ false
unfolding one_of arith_chars
arith_line c h = ground arith

single_line : (c : ℕ) (t : TokenType) → single c ≡ some t → (c == b'\n') ≡ false
unfolding single
single_line c t h = elim (Bool-cases (c == b'\n')) [
  | inl e ↦ absurd (at_newline (subst (λ x. single x ≡ some t) ((nat_beq_iff c b'\n').0 e) h))
  | inr e ↦ e
]
  where
    at_newline : single b'\n' ≡ some t → ⊥
    at_newline e = cc e

-- It ends, the last token is eof, and every token is where it says.
abbrev pub LexesTo : List Rune → Option (List Token) → Type 0
LexesTo source none = ⊥
LexesTo source (some tokens) =
    All (StandsIn source) tokens
    × ((front : List Token) × (last : Token) × (tokens ≡ front ++ last ∷ []) × (last.typ ≡ eof))

abbrev start_of : List Rune → Lexer
start_of source = record { before = []; rest = source; lineno = 1; linestart = 0; tokens = [] }

start-LexerInv : (source : List Rune) → LexerInv source 0 (start_of source)
unfolding newlines since_from widths
start-LexerInv source = (refl, refl, refl, tt, omega arith)

module _ (source : List Rune) (cl : Classes) (skip : SkipNewline cl)
    (bytes : All QuoteIsByte source) where
  module _ {n : ℕ} (r : Rune) (rs : List Rune) (l : Lexer) (inv : LexerInv source n l)
      (h : l.rest ≡ r ∷ rs) where
    digit_line : cl.is_digit r.code ≡ true → is_newline r ≡ false
    digit_line e = elim (Bool-cases (is_newline r)) [
      | inl n ↦
          absurd (
            cc
              (subst (λ x. cl.is_digit x ≡ true) ((nat_beq_iff r.code b'\n').0 n) e, skip.no_digit))
      | inr n ↦ n
    ]

    begin_line : is_ident_begin cl r.code ≡ true → is_newline r ≡ false
    unfolding is_ident_begin
    begin_line e = elim (Bool-cases (is_newline r)) [
      | inl n ↦
          absurd (
            at_newline (subst (λ x. is_ident_begin cl x ≡ true) ((nat_beq_iff r.code b'\n').0 n) e))
      | inr n ↦ n
    ]
      where
        at_newline : is_ident_begin cl b'\n' ≡ true → ⊥
        at_newline e = cc (rw skip.no_letter at e)

    lex_other-LexerInv : LexerInv source (suc n) (lex_other cl r rs l)
    unfolding lex_other
    lex_other-LexerInv =
        if-Inv source (cl.is_digit r.code) _ _
          (λ e. lex_number-LexerInv source cl skip r rs l inv h (digit_line e))
          λ d.
            if-Inv source (r.code == b'.') _ _
              (λ e. lex_dotted-LexerInv source cl skip r rs l inv h (other_line r.code b'.' e refl))
              λ d.
                if-Inv source (is_ident_begin cl r.code) _ _
                  (λ e. lex_undotted-LexerInv source cl skip r rs l inv h (begin_line e))
                  λ d.
                    if-Inv source (r.code == b'<' || r.code == b'>') _ _
                      (λ e.
                        lex_shift-LexerInv source r.code r rs l inv h (shift_line r.code e)
                          (shift_line r.code e))
                      λ d.
                        if-Inv source (r.code == b'%') _ _
                          (λ e.
                            lex_percent-LexerInv source cl skip r rs l inv h
                              (other_line r.code b'%' e refl))
                          λ d.
                            if-Inv source (one_of arith_chars r.code) _ _
                              (λ e. emit_one source arith_token r rs l inv h (arith_line r.code e))
                              λ d.
                                if-Inv source (is_newline r) _ _
                                  (λ e. newline-LexerInv source r rs l inv h e)
                                  λ n.
                                    if-Inv source (cl.is_space r.code) _ _
                                      (λ e. ignore_one source r rs l inv h n)
                                      λ e. emit_one source invalid_token r rs l inv h n

    lex_token-LexerInv :
        (o : Option TokenType) → single r.code ≡ o → LexerInv source (suc n) (lex_token cl o r rs l)
    unfolding lex_token
    lex_token-LexerInv (some typ) e = emit_one source typ r rs l inv h (single_line r.code typ e)
    lex_token-LexerInv none e =
        if-Inv source (r.code == b';') _ _
          (λ c. lex_comment-LexerInv source r rs l inv h (other_line r.code b';' c refl))
          λ d.
            if-Inv source (r.code == b'@') _ _
              (λ c. lex_label-LexerInv source cl skip r rs l inv h (other_line r.code b'@' c refl))
              λ d.
                if-Inv source (r.code == b'$') _ _
                  (λ c.
                    lex_variable-LexerInv source cl skip r rs l inv h
                      (other_line r.code b'$' c refl))
                  λ d.
                    if-Inv source (r.code == b'"') _ _
                      (λ c.
                        let quote = (nat_beq_iff r.code b'"').0 c in
                        lex_inside_string-LexerInv source r rs l inv h quote (
                          All-at QuoteIsByte l.before r rs
                            (subst (All QuoteIsByte) (inv.0 ∙ ap (λ x. l.before ++ x) h) bytes)
                            quote))
                      λ d.
                        if-Inv source (r.code == b'#') _ _
                          (λ c.
                            lex_preprocessor-LexerInv source cl skip r rs l inv h
                              (other_line r.code b'#' c refl))
                          λ d. lex_other-LexerInv

    lex_next-LexerInv : LexerInv source (suc n) (lex_next cl r rs l)
    unfolding lex_next
    lex_next-LexerInv = lex_token-LexerInv (single r.code) refl

  eof-LexesTo : {n : ℕ} (l : Lexer) → LexerInv source n l → LexesTo source (with_eof (some l))
  unfolding with_eof emit emit_at
  eof-LexesTo {n} l inv = (
    (emit-LexerInv source n eof [] l.rest l inv refl no_newlines (omega arith)).3,
    (l.tokens, _, refl, refl),
  )

  lex_all-LexesTo :
      (fuel : ℕ) (l : Lexer) (rs : List Rune) (n : ℕ)
      → LexerInv source n l
      → l.rest ≡ rs
      → length source ≤ n + fuel
      → LexesTo source (with_eof (lex_all cl fuel l rs))
  unfolding lex_all
  lex_all-LexesTo fuel l [] n inv h enough = eof-LexesTo l inv
  lex_all-LexesTo zero l (r ∷ rs) n inv h enough =
      absurd (omega (arith, left_over l (r ∷ rs) inv h))
    where
      left_over :
          (l : Lexer) (rest : List Rune)
          → LexerInv source n l
          → l.rest ≡ rest
          → length source ≡ length l.before + length rest
      left_over l rest inv h =
          ap length (inv.0 ∙ ap (λ x. l.before ++ x) h) ∙ length-append l.before rest
  lex_all-LexesTo (suc fuel) l (r ∷ rs) n inv h enough =
      let q = lex_next cl r rs l in
      lex_all-LexesTo fuel q q.rest (suc n) (lex_next-LexerInv r rs l inv h) refl (omega arith)

  -- If no class of letters or digits holds the newline, and a quote is one byte long, then the lexer
  -- ends, its last token is eof, and the text of every token stands in the source after the lines and
  -- the bytes of its line that the token says.
  pub run_lexer-LexesTo : LexesTo source (run_lexer cl source)
  unfolding run_lexer
  run_lexer-LexesTo =
      lex_all-LexesTo (length source) _ source 0
        (emit-LexerInv source 0 line_start [] source (start_of source) (start-LexerInv source) refl
          no_newlines (omega arith))
        refl (omega arith)
