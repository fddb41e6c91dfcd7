-- ===== src/Ast/Lexer/Rounds/Strings.antt =====
-- The inside of a string, which may span lines.
use geas.Prelude.{
  ℕ, suc, ◌+◌, ◌≤◌, length, length-append, ◌≡◌, ◌∙◌, refl, sym, ap, Bool, true, false, List, [],
  ◌∷◌, ◌++◌, ◌==◌, nat_eq, if◌then◌else◌, arith,
}
use mathlib.Core.Path.{subst}
use geas.Ast.Lexer.Defs.{
  Rune, string_literal, invalid_token, Token, Lexer, widths, emit_at, ignore, column_of, peeks,
  skip_one,
}
use geas.Ast.Lexer.{Inside, one_more, stop_at, inside, finish_string, lex_inside_string}
use geas.Ast.Lexer.Positions.{
  is_newline, newlines, since_from, line_at, column_at, StandsIn, LexerInv, skip_one-LexerInv,
  peeks-line, newlines-append, widths-append, since_from-append, append_assoc, All-snoc,
  since_from-line, one_line, no_newlines,
}
use geas.Ast.Lexer.Rounds.{ignore_one, if-Inv}

-- `i` splits the runes, and counts the lines in its part, from column `s` on.
abbrev Counts : List Rune → ℕ → ℕ → ℕ → Inside → Type 0
Counts rs pos line s i =
    (rs ≡ i.text ++ i.rest)
    × (i.lineno ≡ line + newlines i.text)
    × (i.linestart + since_from s i.text ≡ pos + widths i.text)
    × (i.closed ≡ true → peeks b'"' i.rest ≡ true)

Counts-stop :
    (rs : List Rune) (pos line start s : ℕ) (closed : Bool)
    → start + s ≡ pos
    → (closed ≡ true → peeks b'"' rs ≡ true)
    → Counts rs pos line s (stop_at closed rs line start)
unfolding newlines since_from widths
Counts-stop rs pos line start s closed h quote = (refl, omega arith, omega arith, quote)

newlines_cons :
    (r : Rune) (xs : List Rune) (b : Bool)
    → is_newline r ≡ b
    → newlines (r ∷ xs) ≡ (if b then 1 else 0) + newlines xs
unfolding newlines
newlines_cons r xs b n = ap (λ c. (if c then 1 else 0) + newlines xs) n

since_cons :
    (s : ℕ) (r : Rune) (xs : List Rune) (b : Bool)
    → is_newline r ≡ b
    → since_from s (r ∷ xs) ≡ since_from (if b then 0 else s + r.width) xs
unfolding since_from
since_cons s r xs b n = ap (λ c. since_from (if c then 0 else s + r.width) xs) n

widths_cons : (r : Rune) (xs : List Rune) → widths (r ∷ xs) ≡ r.width + widths xs
unfolding widths
widths_cons r xs = refl

Counts-line :
    (r : Rune) (rs : List Rune) (pos line s : ℕ) (i : Inside)
    → is_newline r ≡ true
    → Counts rs (pos + r.width) (line + 1) 0 i
    → Counts (r ∷ rs) pos line s (one_more r i)
Counts-line r rs pos line s i n (split, lines, column, quote) = (
  ap (◌∷◌ r) split,
  lines ∙ omega (arith, newlines_cons r i.text true n),
  ap (◌+◌ i.linestart) (since_cons s r i.text true n)
      ∙ column
      ∙ omega (arith, widths_cons r i.text),
  quote,
)

Counts-rune :
    (r : Rune) (rs : List Rune) (pos line s : ℕ) (i : Inside)
    → is_newline r ≡ false
    → Counts rs (pos + r.width) line (s + r.width) i
    → Counts (r ∷ rs) pos line s (one_more r i)
Counts-rune r rs pos line s i n (split, lines, column, quote) = (
  ap (◌∷◌ r) split,
  lines ∙ omega (arith, newlines_cons r i.text false n),
  ap (◌+◌ i.linestart) (since_cons s r i.text false n)
      ∙ column
      ∙ omega (arith, widths_cons r i.text),
  quote,
)

if-Counts :
    (rs : List Rune) (pos line s : ℕ) (b : Bool) (x y : Inside)
    → (b ≡ true → Counts rs pos line s x)
    → (b ≡ false → Counts rs pos line s y)
    → Counts rs pos line s (if b then x else y)
if-Counts rs pos line s true x y h k = h refl
if-Counts rs pos line s false x y h k = k refl

inside-Counts :
    (escaped : Bool) (rs : List Rune) (pos line start s : ℕ)
    → start + s ≡ pos
    → Counts rs pos line s (inside escaped rs pos line start)
unfolding inside peeks
inside-Counts escaped [] pos line start s h =
    Counts-stop [] pos line start s false h λ e. absurd (cc e)
inside-Counts escaped (r ∷ rs) pos line start s h =
    let here = pos + r.width in
    let plain = λ (n : is_newline r ≡ false) (esc : Bool).
      Counts-rune r rs pos line s (inside esc rs here line start) n
        (inside-Counts esc rs here line start (s + r.width) (omega arith)) in
    if-Counts (r ∷ rs) pos line s (is_newline r) _ _
      (λ n.
        Counts-line r rs pos line s (inside false rs here (line + 1) here) n
          (inside-Counts false rs here (line + 1) here 0 (omega arith)))
      λ n.
        if-Counts (r ∷ rs) pos line s (r.code == 0) _ _
          (λ z. Counts-stop (r ∷ rs) pos line start s false h λ e. absurd (cc e))
          λ z.
            if-Counts (r ∷ rs) pos line s escaped _ _ (λ e. plain n false)
              λ e.
                if-Counts (r ∷ rs) pos line s (r.code == b'\\') _ _ (λ b. plain n true)
                  λ b.
                    if-Counts (r ∷ rs) pos line s (r.code == b'"') _ _
                      (λ q. Counts-stop (r ∷ rs) pos line start s true h λ t. q) λ q. plain n false

width_of : (r : Rune) → widths (r ∷ []) ≡ r.width
unfolding widths
width_of r = omega arith

module _ (source : List Rune) {n : ℕ} (r : Rune) (rs : List Rune) (l : Lexer)
    (inv : LexerInv source n l) (h : l.rest ≡ r ∷ rs) (quote : r.code ≡ b'"')
    (one_byte : r.width ≡ 1) where
  quote_line : is_newline r ≡ false
  quote_line = ground arith

  -- Past a text that may have lines, once they are counted.
  moved :
      (base text rest : List Rune) (t : Token) (line start : ℕ)
      → source ≡ base ++ (text ++ rest)
      → line ≡ line_at base + newlines text
      → start + since_from (column_at base) text ≡ widths base + widths text
      → StandsIn source t
      → suc n ≤ length base + length text
      → LexerInv source (suc n) (record {
        before = base ++ text;
        rest = rest;
        lineno = line;
        linestart = start;
        tokens = l.tokens ++ t ∷ [];
      })
  moved base text rest t line start split lines column stands more = (
    split ∙ sym (append_assoc base text rest),
    omega (arith, newlines-append base text),
    omega (arith, since_from-append 0 base text, widths-append base text),
    All-snoc (StandsIn source) l.tokens t inv.3 stands,
    omega (arith, length-append base text),
  )

  quoted : LexerInv source (suc n) (ignore (r ∷ []) rs l)
  quoted = ignore_one source r rs l inv h quote_line

  quoted_split : source ≡ (l.before ++ r ∷ []) ++ rs
  unfolding ignore
  quoted_split = quoted.0

  quoted_line : l.lineno ≡ line_at (l.before ++ r ∷ [])
  unfolding ignore
  quoted_line = quoted.1

  quoted_behind : suc n ≤ length (l.before ++ r ∷ [])
  unfolding ignore
  quoted_behind = quoted.4

  quoted_column : column_at (l.before ++ r ∷ []) ≡ column_at l.before + r.width
  quoted_column =
      since_from-append 0 l.before (r ∷ [])
      ∙ since_from-line (column_at l.before) (r ∷ []) (one_line r [] quote_line no_newlines)
      ∙ ap (◌+◌ (column_at l.before)) (width_of r)

  quoted_width : widths (l.before ++ r ∷ []) ≡ widths l.before + r.width
  quoted_width = widths-append l.before (r ∷ []) ∙ ap (◌+◌ (widths l.before)) (width_of r)

  module _ (i : Inside)
      (counts : Counts rs
        (widths l.before + r.width)
        l.lineno
        (column_at l.before + r.width)
        i) where
    closed-LexerInv :
        i.closed ≡ true
        → LexerInv source (suc n) (
            skip_one
              (record (emit_at string_literal l.lineno
                (column_of l + 1)
                i.text
                i.rest
                (ignore (r ∷ []) (i.text ++ i.rest) l)) {
                  lineno = i.lineno;
                  linestart = i.linestart;
                }))
    unfolding emit_at ignore column_of
    closed-LexerInv closed =
        let base = l.before ++ r ∷ [] in
        let first = subst (λ x. source ≡ base ++ x) counts.0 (quoted_split) in
        skip_one-LexerInv source _
          (moved base i.text i.rest _ i.lineno i.linestart first
            (omega (arith, quoted_line, counts.1))
            (subst (λ s. i.linestart + since_from s i.text ≡ widths base + widths i.text)
              (sym quoted_column) (omega (arith, counts.2, quoted_width)))
            (base, i.rest, first, quoted_line, omega (arith, quoted_column, inv.2))
            (omega (arith, quoted_behind)))
          (peeks-line b'"' i.rest (counts.3 closed) refl)

    unclosed-LexerInv :
        LexerInv source
          (suc n)
          (record (emit_at invalid_token l.lineno (column_of l) (r ∷ i.text) i.rest l) {
            lineno = i.lineno;
            linestart = i.linestart;
          })
    unfolding emit_at column_of
    unclosed-LexerInv =
        let more =
          Counts-rune r rs (widths l.before) l.lineno (column_at l.before) i quote_line counts in
        let first = inv.0 ∙ ap (λ x. l.before ++ x) (h ∙ more.0) in
        moved l.before (r ∷ i.text) i.rest _ i.lineno i.linestart first
          (omega (arith, more.1, inv.1)) more.2
          (l.before, i.rest, first, inv.1, omega (arith, inv.2)) (omega (arith, inv.4))

    finish_string-LexerInv : LexerInv source (suc n) (finish_string r i l)
    unfolding finish_string
    finish_string-LexerInv = if-Inv source i.closed _ _ closed-LexerInv λ e. unclosed-LexerInv

  pub lex_inside_string-LexerInv : LexerInv source (suc n) (lex_inside_string r rs l)
  unfolding lex_inside_string
  lex_inside_string-LexerInv =
      finish_string-LexerInv (inside false rs (widths l.before + r.width) l.lineno l.linestart) (
        inside-Counts false rs (widths l.before + r.width) l.lineno l.linestart
          (column_at l.before + r.width) (omega (arith, inv.2)))
