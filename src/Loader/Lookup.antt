-- ===== src/Loader/Lookup.antt =====
-- What a registration does to the lookups.
use Prim.Native.Char.{Char}
use mathlib.Core.Path.{subst}
use geas.Prelude.{
  ℕ, ◌≡◌, ◌≢◌, refl, Bool, true, false, Option, some, String, ◌==◌, nat_eq, string_eq, nat_beq_iff,
  nat_beq, if◌then◌else◌, Bool-cases, Option-cases, inl, inr, arith, eq_iff,
}
use geas.Ast.{Document, toplevel, inside, info, LabelDef, ExpressionMacroDef, is_global}
use geas.Loader.{
  Program, registered, defs_of, or_else, find_up, definitions_of, lookup_expr_macro, lookup_label,
  register_expr_macro, register_label, add_expr_macro, insert_expr_macro, insert_label,
  register_local_label, register_global_label,
}

-- A chain of documents looks at each of its documents once.
pub find_up-eq {ℓ} :
    {A : Type ℓ} (f g : ℕ → Option A) (doc : Document)
    → ((d : ℕ) → f d ≡ g d)
    → find_up f doc ≡ find_up g doc
unfolding find_up
find_up-eq f g (toplevel d) h = h d.id
find_up-eq f g (inside d parent) h = rw (h d.id, find_up-eq f g parent h) refl

find_up_here {ℓ} :
    {A : Type ℓ} (f : ℕ → Option A) (doc : Document) (a : A)
    → f (info doc).id ≡ some a
    → find_up f doc ≡ some a
unfolding find_up or_else
find_up_here f (toplevel d) a h = h
find_up_here f (inside d parent) a h = rw h refl

beq_self : (n : ℕ) → nat_beq n n ≡ true
beq_self n = (nat_beq_iff n n).1 refl

eq_self : (s : String) → (s == s) ≡ true
eq_self s = (eq_iff s s).1 refl

module _ (is_upper : Char → Bool) where
  registered-inv :
      (p q : Program) (d : ℕ) (def : ExpressionMacroDef)
      → register_expr_macro is_upper p d def ≡ registered q
      → insert_expr_macro is_upper p d def ≡ q
  unfolding register_expr_macro add_expr_macro
  registered-inv p q d def h = ground arith

  lookup-insert_self :
      (p : Program) (doc : Document) (def : ExpressionMacroDef)
      → lookup_expr_macro is_upper (insert_expr_macro is_upper p (info doc).id def) def.ident doc
        ≡ some def
  unfolding lookup_expr_macro insert_expr_macro defs_of definitions_of
  lookup-insert_self p doc def = elim (Bool-cases (is_global is_upper def.ident)) [
    | inl e ↦ rw (e, eq_self def.ident) refl
    | inr e ↦ rw e (find_up_here _ doc def (rw (beq_self (info doc).id, eq_self def.ident) refl))
  ]

  local-insert_ne :
      (p : Program) (d d' : ℕ) (def : ExpressionMacroDef) (name : String)
      → name ≢ def.ident
      → (defs_of (insert_expr_macro is_upper p d def) d').expr_macro name
        ≡ (defs_of p d').expr_macro name
  unfolding insert_expr_macro defs_of definitions_of
  local-insert_ne p d d' def name ne = ground (arith, eq_iff def.ident name, nat_beq_iff d d')

  lookup-insert_ne :
      (p : Program) (d : ℕ) (def : ExpressionMacroDef) (name : String) (from : Document)
      → name ≢ def.ident
      → lookup_expr_macro is_upper (insert_expr_macro is_upper p d def) name from
        ≡ lookup_expr_macro is_upper p name from
  unfolding lookup_expr_macro
  lookup-insert_ne p d def name from ne = elim (Bool-cases (is_global is_upper name)) [
    | inl e ↦ rw e (unfold insert_expr_macro in ground (arith, eq_iff def.ident name))
    | inr e ↦ rw e (find_up-eq _ _ from λ d'. local-insert_ne p d d' def name ne)
  ]

  -- A macro that is registered without an error is what its name stands for in its document, and no
  -- other name changes its meaning in any document.
  pub lookup_expr_macro-register :
      (p q : Program) (doc : Document) (def : ExpressionMacroDef)
      → register_expr_macro is_upper p (info doc).id def ≡ registered q
      → (lookup_expr_macro is_upper q def.ident doc ≡ some def)
        × ((name : String) (from : Document)
            → name ≢ def.ident
            → lookup_expr_macro is_upper q name from ≡ lookup_expr_macro is_upper p name from)
  lookup_expr_macro-register p q doc def h =
      subst
        (λ r.
          (lookup_expr_macro is_upper r def.ident doc ≡ some def)
          × ((name : String) (from : Document)
              → name ≢ def.ident
              → lookup_expr_macro is_upper r name from ≡ lookup_expr_macro is_upper p name from))
        (registered-inv p q (info doc).id def h)
        (
          lookup-insert_self p doc def,
          λ name from ne. lookup-insert_ne p (info doc).id def name from ne,
        )

  global_label-inv :
      (p q : Program) (doc : Document) (def : LabelDef)
      → is_global is_upper def.ident ≡ true
      → register_label is_upper p (info doc) def ≡ registered q
      → register_global_label is_upper p (info doc) def ≡ q
  unfolding register_label
  global_label-inv p q doc def e h = ground arith

  local_label-inv :
      (p q : Program) (doc : Document) (def : LabelDef)
      → is_global is_upper def.ident ≡ false
      → register_label is_upper p (info doc) def ≡ registered q
      → insert_label p (info doc).id def ≡ q
  unfolding register_label register_local_label
  local_label-inv p q doc def e h = ground arith

  global_label :
      (p : Program) (doc : Document) (def : LabelDef)
      → is_global is_upper def.ident ≡ true
      → (lookup_label is_upper (register_global_label is_upper p (info doc) def) def.ident doc).0
        ≡ or_else (p.global.label def.ident) (some def)
  unfolding lookup_label register_global_label or_else
  global_label p doc def e = elim (Option-cases (p.global.label def.ident)) [
    | inl f ↦ rw (e, f, eq_self def.ident) refl
    | inr (l, f) ↦ rw (e, f) f
  ]

  local_label :
      (p : Program) (doc : Document) (def : LabelDef)
      → is_global is_upper def.ident ≡ false
      → (lookup_label is_upper (insert_label p (info doc).id def) def.ident doc).0 ≡ some def
  unfolding lookup_label insert_label defs_of definitions_of
  local_label p doc def e =
      rw e (find_up_here _ doc def (rw (beq_self (info doc).id, eq_self def.ident) refl))

  -- A label that is registered without an error is what its name stands for in its document, unless
  -- the name is global and was defined before; then the first definition stays.
  pub lookup_label-register :
      (p q : Program) (doc : Document) (def : LabelDef)
      → register_label is_upper p (info doc) def ≡ registered q
      → (lookup_label is_upper q def.ident doc).0 ≡ (
          if is_global is_upper def.ident
          then or_else (p.global.label def.ident) (some def)
          else some def)
  lookup_label-register p q doc def h = elim (Bool-cases (is_global is_upper def.ident)) [
    | inl e ↦ rw e (
        subst
          (λ r.
            (lookup_label is_upper r def.ident doc).0
            ≡ or_else (p.global.label def.ident) (some def))
          (global_label-inv p q doc def e h) (global_label p doc def e))
    | inr e ↦ rw e (
        subst (λ r. (lookup_label is_upper r def.ident doc).0 ≡ some def)
          (local_label-inv p q doc def e h) (local_label p doc def e))
  ]
