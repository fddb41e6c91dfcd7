-- ===== src/Ast/Lexer/Positions.antt =====
-- Where a token stands in the source: its line, and its column in bytes.
use geas.Prelude.{
  ℕ, suc, ◌+◌, ◌≤◌, length, length-append, ◌≡◌, ◌∙◌, refl, sym, ap, Bool, true, false, List, [],
  ◌∷◌, ◌++◌, ◌==◌, nat_eq, if◌then◌else◌, All, arith, Bool-cases, inl, inr, nat_beq_iff,
}
use mathlib.Core.Path.{subst}
use geas.Ast.Lexer.Defs.{
  Rune, TokenType, line_start, line_end, Token, Lexer, widths, emit_at, column_of, emit, ignore,
  new_line, accept_run, peeks, drop_one, skip_one,
}

abbrev pub is_newline : Rune → Bool
is_newline r = r.code == b'\n'

unfoldable pub newlines : List Rune → ℕ
newlines [] = 0
newlines (r ∷ rs) = (if is_newline r then 1 else 0) + newlines rs

-- The bytes since the last newline, `s` of them before the list.
unfoldable pub since_from : ℕ → List Rune → ℕ
since_from s [] = s
since_from s (r ∷ rs) = since_from (if is_newline r then 0 else s + r.width) rs

abbrev pub line_at : List Rune → ℕ
line_at before = 1 + newlines before

abbrev pub column_at : List Rune → ℕ
column_at = since_from 0

-- The text of the token is in the source, after as many lines and bytes of its line as it says.
abbrev pub StandsIn : List Rune → Token → Type 0
StandsIn source t =
    (before : List Rune) × (after : List Rune) × (source ≡ before ++ (t.text ++ after))
    × (t.line ≡ line_at before)
    × (t.column ≡ column_at before)

-- At least `n` runes are behind.
abbrev pub LexerInv : List Rune → ℕ → Lexer → Type 0
LexerInv source n l =
    (source ≡ l.before ++ l.rest)
    × (l.lineno ≡ line_at l.before)
    × (l.linestart + column_at l.before ≡ widths l.before)
    × All (StandsIn source) l.tokens
    × (n ≤ length l.before)

pub newlines-append : (xs ys : List Rune) → newlines (xs ++ ys) ≡ newlines xs + newlines ys
unfolding newlines
newlines-append [] ys = omega arith
newlines-append (x ∷ xs) ys = omega (arith, newlines-append xs ys)

pub widths-append : (xs ys : List Rune) → widths (xs ++ ys) ≡ widths xs + widths ys
unfolding widths
widths-append [] ys = omega arith
widths-append (x ∷ xs) ys = omega (arith, widths-append xs ys)

pub since_from-append :
    (s : ℕ) (xs ys : List Rune) → since_from s (xs ++ ys) ≡ since_from (since_from s xs) ys
unfolding since_from
since_from-append s [] ys = refl
since_from-append s (x ∷ xs) ys = since_from-append (if is_newline x then 0 else s + x.width) xs ys

pub since_from-line : (s : ℕ) (xs : List Rune) → newlines xs ≡ 0 → since_from s xs ≡ s + widths xs
unfolding since_from newlines widths
since_from-line s [] h = omega arith
since_from-line s (x ∷ xs) h = ground (arith, since_from-line (s + x.width) xs)

pub append_assoc {ℓ} : {A : Type ℓ} (xs ys zs : List A) → (xs ++ ys) ++ zs ≡ xs ++ (ys ++ zs)
append_assoc [] ys zs = refl
append_assoc (x ∷ xs) ys zs = ap (◌∷◌ x) (append_assoc xs ys zs)

pub All-snoc {ℓ κ} :
    {A : Type ℓ} (P : A → Type κ) (xs : List A) (x : A) → All P xs → P x → All P (xs ++ x ∷ [])
All-snoc P [] x all p = (p, tt)
All-snoc P (y ∷ ys) x all p = (all.0, All-snoc P ys x all.1 p)

one_newline : (r : Rune) → is_newline r ≡ true → newlines (r ∷ []) ≡ 1
unfolding newlines
one_newline r h = ground arith

since_newline : (s : ℕ) (r : Rune) → is_newline r ≡ true → since_from s (r ∷ []) ≡ 0
unfolding since_from
since_newline s r h = ground arith

pub no_newlines : newlines [] ≡ 0
unfolding newlines
no_newlines = refl

module _ (source : List Rune) where
  split_on :
      (before text rest all_rest : List Rune)
      → source ≡ before ++ all_rest
      → all_rest ≡ text ++ rest
      → source ≡ (before ++ text) ++ rest
  split_on before text rest all_rest e h =
      e ∙ ap (λ r. before ++ r) h ∙ sym (append_assoc before text rest)

  -- Past a text within a line.
  pub ignore-LexerInv :
      {n : ℕ} (m : ℕ) (text rest : List Rune) (l : Lexer)
      → LexerInv source n l
      → l.rest ≡ text ++ rest
      → newlines text ≡ 0
      → m ≤ n + length text
      → LexerInv source m (ignore text rest l)
  unfolding ignore
  ignore-LexerInv {n} m text rest l (split, line, start, tokens, behind) h no_line more = (
    split_on l.before text rest l.rest split h,
    omega (arith, newlines-append l.before text),
    omega (
      arith,
      since_from-append 0 l.before text,
      since_from-line (column_at l.before) text no_line,
      widths-append l.before text,
    ),
    tokens,
    omega (arith, length-append l.before text),
  )

  pub token_here :
      {n : ℕ} (typ : TokenType) (text rest : List Rune) (l : Lexer)
      → LexerInv source n l
      → l.rest ≡ text ++ rest
      → StandsIn source (record { text = text; line = l.lineno; column = column_of l; typ = typ })
  unfolding column_of
  token_here typ text rest l (split, line, start, tokens, behind) h =
      (l.before, rest, split ∙ ap (λ r. l.before ++ r) h, line, omega arith)

  -- The same with a token.
  pub emit-LexerInv :
      {n : ℕ} (m : ℕ) (typ : TokenType) (text rest : List Rune) (l : Lexer)
      → LexerInv source n l
      → l.rest ≡ text ++ rest
      → newlines text ≡ 0
      → m ≤ n + length text
      → LexerInv source m (emit typ text rest l)
  unfolding emit emit_at ignore
  emit-LexerInv m typ text rest l inv h no_line more =
      let moved = ignore-LexerInv m text rest l inv h no_line more in
      (
        moved.0,
        moved.1,
        moved.2,
        All-snoc (StandsIn source) l.tokens _ inv.3 (token_here typ text rest l inv h),
        moved.4,
      )

  -- At the end of a line.
  pub newline-LexerInv :
      {n : ℕ} (r : Rune) (rest : List Rune) (l : Lexer)
      → LexerInv source n l
      → l.rest ≡ r ∷ rest
      → is_newline r ≡ true
      → LexerInv source (suc n) (emit line_start [] rest (new_line (emit line_end (r ∷ []) rest l)))
  unfolding emit emit_at new_line
  newline-LexerInv {n} r rest l inv h ends =
      emit-LexerInv {n = suc n} (suc n) line_start [] rest
        (new_line (emit line_end (r ∷ []) rest l))
        (
          split_on l.before (r ∷ []) rest l.rest inv.0 h,
          ended_line,
          ended_start,
          All-snoc (StandsIn source) l.tokens _ inv.3 (token_here line_end (r ∷ []) rest l inv h),
          omega (arith, length-append l.before (r ∷ []), inv.4),
        )
        refl no_newlines (omega arith)
    where
      ended_line : l.lineno + 1 ≡ line_at (l.before ++ r ∷ [])
      ended_line = omega (arith, newlines-append l.before (r ∷ []), one_newline r ends, inv.1)

      ended_start :
          widths (l.before ++ r ∷ []) + column_at (l.before ++ r ∷ []) ≡ widths (l.before ++ r ∷ [])
      ended_start =
          omega (
            arith,
            since_from-append 0 l.before (r ∷ []),
            since_newline (column_at l.before) r ends,
          )

  pub skip_one-LexerInv :
      {n : ℕ} (l : Lexer)
      → LexerInv source n l
      → newlines (drop_one l.rest).0 ≡ 0
      → LexerInv source n (skip_one l)
  unfolding skip_one
  skip_one-LexerInv {n} l inv no_line =
      ignore-LexerInv n (drop_one l.rest).0 (drop_one l.rest).1 l inv (dropped l.rest) no_line
        (omega arith)
    where
      dropped : (rs : List Rune) → rs ≡ (drop_one rs).0 ++ (drop_one rs).1
      dropped [] = refl
      dropped (r ∷ rs) = refl

-- A run of a class without the newline.
abbrev pub IsRun : List Rune → List Rune × List Rune → Type 0
IsRun rs run = (rs ≡ run.0 ++ run.1) × (newlines run.0 ≡ 0)

class_line :
    (class : ℕ → Bool) (c : ℕ) → class c ≡ true → class b'\n' ≡ false → (c == b'\n') ≡ false
class_line class c h other = elim (Bool-cases (c == b'\n')) [
  | inl e ↦ absurd (cc (subst (λ x. class x ≡ true) ((nat_beq_iff c b'\n').0 e) h, other))
  | inr e ↦ e
]

pub one_line :
    (r : Rune) (rs : List Rune) → is_newline r ≡ false → newlines rs ≡ 0 → newlines (r ∷ rs) ≡ 0
unfolding newlines
one_line r rs h k = rw h (omega arith)

pub accept_run-IsRun :
    (class : ℕ → Bool) (rs : List Rune) → class b'\n' ≡ false → IsRun rs (accept_run class rs)
unfolding accept_run
accept_run-IsRun class [] h = (refl, no_newlines)
accept_run-IsRun class (r ∷ rs) h = elim (Bool-cases (class r.code)) [
  | inl e ↦
      let more = accept_run-IsRun class rs h in
      rw e
        (ap (◌∷◌ r) more.0, one_line r (accept_run class rs).0 (class_line class r.code e h) more.1)
  | inr e ↦ rw e (refl, no_newlines)
]

pub peeks-line :
    (c : ℕ) (rs : List Rune)
    → peeks c rs ≡ true
    → (c == b'\n') ≡ false
    → newlines (drop_one rs).0 ≡ 0
unfolding peeks drop_one newlines
peeks-line c [] h other = refl
peeks-line c (r ∷ rs) h other = ground arith
