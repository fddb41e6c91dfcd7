-- ===== src/Ast/Lexer/Rounds.antt =====
-- The state functions of the lexer, with the string left to its own module.
pub mod Strings
pub mod Whole
use geas.Prelude.{
  ℕ, zero, suc, ◌+◌, ◌-◌, ◌≡◌, ◌≢◌, ◌∙◌, refl, sym, ap, Bool, true, false, ◌||◌, ◌&&◌, not, Option,
  none, some, List, [], ◌∷◌, ◌++◌, ◌==◌, nat_eq, nat_beq_iff, if◌then◌else◌, All, arith, Bool-cases,
  Option-cases, inl, inr, length,
}
use mathlib.Core.Path.{subst}
use geas.Ast.Lexer.Defs.{
  Rune, TokenType, dotted_label_ref, label_ref, directive, pc_label, number_literal, dotted_label,
  dotted_identifier, label, identifier, comment, arith as arith_token, invalid_token,
  variable_identifier, inst_macro_ident, Token, Classes, Lexer, widths, emit_at, emit, ignore,
  accept_run, peeks, drop_one, skip_one,
}
use geas.Ast.Lexer.{
  not_newline, lex_comment, lex_shift, is_hex, is_ident_begin, is_ident, emit_ident, lex_label,
  lex_variable, lex_preprocessor, begins_ident, lex_percent, digits, lex_number, lex_dotted,
  lex_undotted, single, arith_chars, lex_other, lex_token,
}
use geas.Ast.Lexer.Positions.{
  is_newline, newlines, LexerInv, ignore-LexerInv, emit-LexerInv, newline-LexerInv,
  skip_one-LexerInv, IsRun, accept_run-IsRun, peeks-line, one_line, no_newlines, append_assoc,
  newlines-append,
}

-- The classes do not hold the newline.
pub record SkipNewline (cl : Classes) : Type 0 where
  pub no_digit : cl.is_digit b'\n' ≡ false
  pub no_letter : cl.is_letter b'\n' ≡ false
  pub no_number : cl.is_number b'\n' ≡ false

x_line : (c : ℕ) → (c == b'x' || c == b'X') ≡ true → (c == b'\n') ≡ false
x_line c h = ground arith

append-IsRun :
    (rs : List Rune) (run more : List Rune × List Rune)
    → IsRun rs run
    → IsRun run.1 more
    → IsRun rs (run.0 ++ more.0, more.1)
append-IsRun rs run more h k = (
  h.0 ∙ ap (λ x. run.0 ++ x) k.0 ∙ sym (append_assoc run.0 more.0 more.1),
  omega (arith, newlines-append run.0 more.0, h.1, k.1),
)

module _ (source : List Rune) where
  -- A first rune, and a run after it.
  pub emit_run :
      {n : ℕ} (typ : TokenType) (r : Rune) (rs : List Rune) (run : List Rune × List Rune)
      (l : Lexer)
      → LexerInv source n l
      → l.rest ≡ r ∷ rs
      → is_newline r ≡ false
      → IsRun rs run
      → LexerInv source (suc n) (emit typ (r ∷ run.0) run.1 l)
  emit_run {n} typ r rs run l inv h line is_run =
      emit-LexerInv source (suc n) typ (r ∷ run.0) run.1 l inv (h ∙ ap (◌∷◌ r) is_run.0)
        (one_line r run.0 line is_run.1) (omega arith)

  pub emit_one :
      {n : ℕ} (typ : TokenType) (r : Rune) (rs : List Rune) (l : Lexer)
      → LexerInv source n l
      → l.rest ≡ r ∷ rs
      → is_newline r ≡ false
      → LexerInv source (suc n) (emit typ (r ∷ []) rs l)
  emit_one typ r rs l inv h line = emit_run typ r rs ([], rs) l inv h line (refl, no_newlines)

  pub ignore_one :
      {n : ℕ} (r : Rune) (rs : List Rune) (l : Lexer)
      → LexerInv source n l
      → l.rest ≡ r ∷ rs
      → is_newline r ≡ false
      → LexerInv source (suc n) (ignore (r ∷ []) rs l)
  ignore_one {n} r rs l inv h line =
      ignore-LexerInv source (suc n) (r ∷ []) rs l inv h (one_line r [] line no_newlines)
        (omega arith)

  pub if-Inv :
      {n : ℕ} (b : Bool) (x y : Lexer)
      → (b ≡ true → LexerInv source n x)
      → (b ≡ false → LexerInv source n y)
      → LexerInv source n (if b then x else y)
  if-Inv true x y h k = h refl
  if-Inv false x y h k = k refl

  lex_comment-LexerInv :
      {n : ℕ} (r : Rune) (rs : List Rune) (l : Lexer)
      → LexerInv source n l
      → l.rest ≡ r ∷ rs
      → is_newline r ≡ false
      → LexerInv source (suc n) (lex_comment r rs l)
  unfolding lex_comment not_newline
  lex_comment-LexerInv r rs l inv h line =
      emit_run comment r rs (accept_run not_newline rs) l inv h line
        (accept_run-IsRun not_newline rs refl)

  peeked_one :
      (c : ℕ) (rs : List Rune) → (c == b'\n') ≡ false → peeks c rs ≡ true → IsRun rs (drop_one rs)
  unfolding drop_one
  peeked_one c [] other h = (refl, no_newlines)
  peeked_one c (r ∷ rs) other h = (refl, peeks-line c (r ∷ rs) h other)

  lex_shift-LexerInv :
      {n : ℕ} (c : ℕ) (r : Rune) (rs : List Rune) (l : Lexer)
      → LexerInv source n l
      → l.rest ≡ r ∷ rs
      → is_newline r ≡ false
      → (c == b'\n') ≡ false
      → LexerInv source (suc n) (lex_shift c r rs l)
  unfolding lex_shift
  lex_shift-LexerInv c r rs l inv h line other =
      if-Inv (peeks c rs) _ _
        (λ e. emit_run arith_token r rs (drop_one rs) l inv h line (peeked_one c rs other e))
        λ e. emit_one invalid_token r rs l inv h line

  module _ (cl : Classes) (skip : SkipNewline cl) where
    no_ident : is_ident cl b'\n' ≡ false
    unfolding is_ident
    no_ident = rw (skip.no_letter, skip.no_number) refl

    no_hex : is_hex cl b'\n' ≡ false
    unfolding is_hex
    no_hex = rw skip.no_digit refl

    ident-IsRun : (rs : List Rune) → IsRun rs (accept_run (is_ident cl) rs)
    ident-IsRun rs = accept_run-IsRun (is_ident cl) rs no_ident

    emit_ident-LexerInv :
        {n : ℕ} (typ : TokenType) (l : Lexer)
        → LexerInv source n l
        → LexerInv source n (emit_ident cl typ l)
    unfolding emit_ident
    emit_ident-LexerInv {n} typ l inv =
        let is_run = ident-IsRun l.rest in
        emit-LexerInv source n typ (accept_run (is_ident cl) l.rest).0
          (accept_run (is_ident cl) l.rest).1 l inv is_run.0 is_run.1 (omega arith)

    digits-IsRun : (rs : List Rune) → IsRun rs (digits cl rs)
    unfolding digits
    digits-IsRun [] = (refl, no_newlines)
    digits-IsRun (r ∷ rs) = elim (Bool-cases (r.code == b'x' || r.code == b'X')) [
      | inl e ↦
          let hex = accept_run-IsRun (is_hex cl) rs no_hex in
          rw e (ap (◌∷◌ r) hex.0, one_line r (accept_run (is_hex cl) rs).0 (x_line r.code e) hex.1)
      | inr e ↦ rw e (accept_run-IsRun cl.is_digit (r ∷ rs) skip.no_digit)
    ]

    module _ {n : ℕ} (r : Rune) (rs : List Rune) (l : Lexer) (inv : LexerInv source n l)
        (h : l.rest ≡ r ∷ rs) (line : is_newline r ≡ false) where
      lex_label-LexerInv : LexerInv source (suc n) (lex_label cl r rs l)
      unfolding lex_label ignore
      lex_label-LexerInv =
          let q = ignore_one r rs l inv h line in
          if-Inv (peeks b'.' rs) _ _
            (λ e.
              emit_ident-LexerInv dotted_label_ref _
                (skip_one-LexerInv source (ignore (r ∷ []) rs l) q (peeks-line b'.' rs e refl)))
            λ e. emit_ident-LexerInv label_ref _ q

      lex_variable-LexerInv : LexerInv source (suc n) (lex_variable cl r rs l)
      unfolding lex_variable
      lex_variable-LexerInv =
          emit_ident-LexerInv variable_identifier _ (ignore_one r rs l inv h line)

      lex_preprocessor-LexerInv : LexerInv source (suc n) (lex_preprocessor cl r rs l)
      unfolding lex_preprocessor
      lex_preprocessor-LexerInv =
          emit_run directive r rs (accept_run (is_ident cl) rs) l inv h line (ident-IsRun rs)

      lex_percent-LexerInv : LexerInv source (suc n) (lex_percent cl r rs l)
      unfolding lex_percent
      lex_percent-LexerInv =
          if-Inv (begins_ident cl rs) _ _
            (λ e. emit_ident-LexerInv inst_macro_ident _ (ignore_one r rs l inv h line))
            λ e. emit_one arith_token r rs l inv h line

      lex_undotted-LexerInv : LexerInv source (suc n) (lex_undotted cl r rs l)
      unfolding lex_undotted emit emit_at
      lex_undotted-LexerInv =
          let run = accept_run (is_ident cl) rs in
          if-Inv (peeks b':' run.1) _ _
            (λ e.
              skip_one-LexerInv source (emit label (r ∷ run.0) run.1 l)
                (emit_run label r rs run l inv h line (ident-IsRun rs))
                (peeks-line b':' run.1 e refl))
            λ e. emit_run identifier r rs run l inv h line (ident-IsRun rs)

      lex_dotted-LexerInv : LexerInv source (suc n) (lex_dotted cl r rs l)
      unfolding lex_dotted ignore emit_ident emit emit_at
      lex_dotted-LexerInv =
          let q = ignore_one r rs l inv h line in
          let run = accept_run (is_ident cl) rs in
          if-Inv (peeks b':' run.1) _ _
            (λ e.
              skip_one-LexerInv source (emit_ident cl dotted_label (ignore (r ∷ []) rs l))
                (emit_ident-LexerInv dotted_label (ignore (r ∷ []) rs l) q)
                (peeks-line b':' run.1 e refl))
            λ e. emit_ident-LexerInv dotted_identifier _ q

      lex_number-LexerInv : LexerInv source (suc n) (lex_number cl r rs l)
      unfolding lex_number emit emit_at
      lex_number-LexerInv =
          let run = digits cl rs in
          let more = accept_run (is_hex cl) run.1 in
          let is_run = digits-IsRun rs in
          let both = append-IsRun rs run more is_run (accept_run-IsRun (is_hex cl) run.1 no_hex) in
          if-Inv (peeks b':' more.1) _ _
            (λ e.
              skip_one-LexerInv source (emit pc_label (r ∷ (run.0 ++ more.0)) more.1 l)
                (emit_run pc_label r rs (run.0 ++ more.0, more.1) l inv h line both)
                (peeks-line b':' more.1 e refl))
            λ e. emit_run number_literal r rs run l inv h line is_run
