-- ===== src/Asm/Expand/Opcode/Jump.antt =====
-- What becomes of a JUMP with an operand, and of an instruction when the fork is unknown.
use geas.Prelude.{
  ℕ, ◌≡◌, ◌∙◌, refl, sym, ap, inl, inr, true, false, not, ◌&&◌, Option, none, some, List, [], ◌∷◌,
  ◌++◌, String, ◌==◌, string_eq, Bool-cases,
}
use geas.Ast.{
  Document, Expr, literal, label_ref, variable, macro_call, binary, unary, group, LabelDef,
}
use geas.Asm.Program.{Instruction, inst, instructions, is_push}
use geas.Asm.Expand.Defs.{
  Input, ExpandError, Term, Prog, Outcome, finished, panicked, add_instruction, new_instruction,
}
use geas.Asm.Expand.Resolve.{Resolved, op, unresolved, no_fork, resolve_op, after_resolved, is_jump}
use geas.Asm.Expand.Opcode.{
  explicit_push_size, push_dest, add_jump, jump_checked, expand_jump, expand_push, find_label,
  jump_target, jump_expr, validate_jump_arg, expand_named, expand_opcode,
}
use geas.Asm.Expand.Invariant.{instructions-append}

append_assoc {ℓ} : {A : Type ℓ} (xs ys zs : List A) → (xs ++ ys) ++ zs ≡ xs ++ (ys ++ zs)
append_assoc [] ys zs = refl
append_assoc (x ∷ xs) ys zs = ap (◌∷◌ x) (append_assoc xs ys zs)

instructions-two :
    (i j : Instruction Term) (p : Prog)
    → instructions (add_instruction j (add_instruction i p)).elems
      ≡ instructions p.elems ++ i ∷ j ∷ []
unfolding add_instruction instructions
instructions-two i j p =
    instructions-append (p.elems ++ inst i ∷ []) (inst j ∷ [])
    ∙ ap (λ xs. xs ++ j ∷ []) (instructions-append p.elems (inst i ∷ []))
    ∙ append_assoc (instructions p.elems) (i ∷ []) (j ∷ [])

module _ (inp : Input) where
  -- A label reference without a dot, whose label is defined and not dotted either.
  abbrev pub IsTarget : Prog → Document → Expr → Type 0
  IsTarget p doc e =
      (ident : String) × (li : LabelDef) × (e ≡ label_ref ident false)
      × (find_label inp p ident doc ≡ some li)
      × (li.dotted ≡ false)

  -- The operand is pushed, and the jump follows.
  abbrev pub PushesDest : String → Expr → ℕ → Prog → Prog → Type 0
  PushesDest name e size p q =
      instructions q.elems
      ≡ instructions p.elems
        ++ new_instruction p "PUSH" (some e) (explicit_push_size size) none
          ∷ new_instruction p name (some e) (explicit_push_size size) none
          ∷ []

  label-IsTarget :
      (p : Prog) (doc : Document) (ident : String) (o : Option LabelDef)
      → find_label inp p ident doc ≡ o
      → jump_target inp ident o ≡ none
      → IsTarget p doc (label_ref ident false)
  unfolding jump_target
  label-IsTarget p doc ident none e h = absurd (cc h)
  label-IsTarget p doc ident (some li) e h = elim (Bool-cases li.dotted) [
    | inl d ↦ absurd (cc (rw d at h))
    | inr d ↦ (ident, li, refl, e, d)
  ]

  jump_expr-IsTarget :
      (p : Prog) (doc : Document) (e : Expr) → jump_expr inp p doc e ≡ none → IsTarget p doc e
  unfolding jump_expr
  jump_expr-IsTarget p doc (label_ref ident true) h = absurd (cc h)
  jump_expr-IsTarget p doc (label_ref ident false) h =
      label-IsTarget p doc ident (find_label inp p ident doc) refl h
  jump_expr-IsTarget p doc (literal text v is_string) h = absurd (cc h)
  jump_expr-IsTarget p doc (variable ident) h = absurd (cc h)
  jump_expr-IsTarget p doc (macro_call call ident builtin args) h = absurd (cc h)
  jump_expr-IsTarget p doc (binary o l r) h = absurd (cc h)
  jump_expr-IsTarget p doc (unary o e) h = absurd (cc h)
  jump_expr-IsTarget p doc (group e) h = absurd (cc h)

  added_when_resolved :
      (r : Resolved) (name : String) (e : Expr) (size : ℕ) (p q : Prog)
      → after_resolved r p (λ o. add_jump inp name (some e) size p) ≡ finished none q
      → PushesDest name e size p q
  unfolding after_resolved add_jump push_dest
  added_when_resolved (op o) name e size p q h =
      ap elems_of (sym h)
      ∙ instructions-two (new_instruction p "PUSH" (some e) (explicit_push_size size) none) _ p
    where
      elems_of : Outcome → List (Instruction Term)
      elems_of (finished x r) = instructions r.elems
      elems_of _ = []
  added_when_resolved (unresolved x) name e size p q h = absurd (cc h)
  added_when_resolved no_fork name e size p q h = absurd (cc h)

  checked_jump :
      (refusal : Option ExpandError) (name : String) (e : Expr) (size : ℕ) (p q : Prog)
      → jump_checked inp refusal name (some e) size p ≡ finished none q
      → (refusal ≡ none) × PushesDest name e size p q
  unfolding jump_checked
  checked_jump (some x) name e size p q h = absurd (cc h)
  checked_jump none name e size p q h =
      (refl, added_when_resolved (resolve_op inp.fork name) name e size p q h)

  -- If a JUMP or another jump instruction with an operand is expanded without an error, then the
  -- operand is a reference without a dot to a label that is defined and not dotted, and exactly two
  -- instructions are added: a PUSH of the operand, and the jump.
  pub expand_opcode-jumps :
      (name : String) (doc : Document) (e : Expr) (imms : List ℕ) (size : ℕ) (p q : Prog)
      → is_jump (inp.to_upper name) ≡ true
      → is_push (inp.to_upper name) ≡ false
      → expand_opcode inp name doc (some e) imms size p ≡ finished none q
      → IsTarget p doc e × PushesDest (inp.to_upper name) e size p q
  unfolding expand_opcode expand_named expand_jump validate_jump_arg
  expand_opcode-jumps name doc e imms size p q jump not_push h =
      let checked =
        checked_jump (jump_expr inp p doc e) (inp.to_upper name) e size p q
          (rw (not_push, jump) at h) in
      (jump_expr-IsTarget p doc e checked.0, checked.1)

  -- With an unknown fork, an instruction that is neither PUSH without a size nor a jump panics,
  -- whatever its operand and its immediates are.
  pub expand_opcode-no_fork :
      (name : String) (doc : Document) (operand : Option Expr) (imms : List ℕ) (size : ℕ) (p : Prog)
      → inp.fork ≡ none
      → (inp.to_upper name == "PUSH") ≡ false
      → is_jump (inp.to_upper name) ≡ false
      → expand_opcode inp name doc operand imms size p ≡ panicked
  unfolding expand_opcode expand_named expand_push after_resolved resolve_op
  expand_opcode-no_fork name doc operand imms size p unknown sized no_jump =
      elim (Bool-cases (is_push (inp.to_upper name) && not (inp.to_upper name == "PUSH0"))) [
        | inl e ↦ rw (e, sized, unknown) refl
        | inr e ↦ rw (e, no_jump, unknown) refl
      ]
