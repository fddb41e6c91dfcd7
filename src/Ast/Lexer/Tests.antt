-- ===== src/Ast/Lexer/Tests.antt =====
-- A run of the lexer.
use geas.Prelude.{
  ℕ, ◌≡◌, refl, ◌||◌, ◌&&◌, leb, Option, none, some, List, [], ◌∷◌, map, ◌==◌, nat_eq, All, length,
}
use geas.Ast.Lexer.Defs.{
  Rune, TokenType, eof, line_start, line_end, label, number_literal, string_literal, Token, Classes,
}
use geas.Ast.Lexer.{run_lexer}
use geas.Ast.Lexer.Rounds.{SkipNewline}
use geas.Ast.Lexer.Rounds.Whole.{QuoteIsByte, LexesTo, run_lexer-LexesTo}

abbrev ascii_classes : Classes
ascii_classes = record {
  is_digit = λ c. leb b'0' c && leb c b'9';
  is_letter = λ c. (leb b'a' c && leb c b'z') || (leb b'A' c && leb c b'Z');
  is_number = λ c. leb b'0' c && leb c b'9';
  is_space = λ c. c == b' ' || c == b'\n';
}

ascii-SkipNewline : SkipNewline ascii_classes
ascii-SkipNewline = record { no_digit = refl; no_letter = refl; no_number = refl }

abbrev one_byte : ℕ → Rune
one_byte c = record { code = c; width = 1 }

-- a: 12, and a string in the next line
abbrev two_lines : List Rune
two_lines =
    map one_byte (b'a' ∷ b':' ∷ b' ' ∷ b'1' ∷ b'2' ∷ b'\n' ∷ b' ' ∷ b'"' ∷ b'x' ∷ b'\n' ∷ b'"' ∷ [])

two_lines-bytes : All QuoteIsByte two_lines
two_lines-bytes = (
  λ e. refl,
  (
    λ e. refl,
    (
      λ e. refl,
      (
        λ e. refl,
        (
          λ e. refl,
          (λ e. refl, (λ e. refl, (λ e. refl, (λ e. refl, (λ e. refl, (λ e. refl, tt)))))),
        ),
      ),
    ),
  ),
)

run_lexer-LexesTo_example : LexesTo two_lines (run_lexer ascii_classes two_lines)
run_lexer-LexesTo_example =
    run_lexer-LexesTo two_lines ascii_classes ascii-SkipNewline two_lines-bytes

abbrev places : Option (List Token) → List (TokenType × ℕ × ℕ × ℕ)
places none = []
places (some tokens) = map (λ t. (t.typ, t.line, t.column, length t.text)) tokens

two_lines-places :
    places (run_lexer ascii_classes two_lines)
    ≡ (line_start, 1, 0, 0)
      ∷ (label, 1, 0, 1)
      ∷ (number_literal, 1, 3, 2)
      ∷ (line_end, 1, 5, 1)
      ∷ (line_start, 2, 0, 0)
      ∷ (string_literal, 2, 2, 2)
      ∷ (eof, 3, 1, 0)
      ∷ []
unfolding run_lexer
two_lines-places = refl
