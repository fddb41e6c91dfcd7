-- ===== src/Asm/Expand/Invariant.antt =====
-- What holds of the output program between two statements of the expansion.
use geas.Prelude.{
  ℕ, zero, suc, ◌<◌, ◌≡◌, ◌∙◌, refl, sym, ap, inl, inr, Bool, true, false, Option, none, some, List,
  [], ◌∷◌, ◌++◌, map, String, nat_eq, length, get_elem?, All, arith, Bool-cases, if◌then◌else◌,
}
use mathlib.Core.Path.{subst}
use geas.Evm.Defs.{InstructionSet}
use geas.Asm.Program.{Instruction, Elem, inst, section_start, section_end, instructions}
use geas.Asm.Backend.PreEvaluated.{IsExpanded}
use geas.Asm.Evaluator.Builtins.{member}
use geas.Asm.Expand.Defs.{
  Term, PendingLabel, Frame, Prog, Outcome, finished, panicked, out_of_fuel, link, add_instruction,
}

-- An argument is evaluated in the innermost open section.
abbrev pub InSection : List ℕ → Option Term → Type 0
InSection _ none = Unit
InSection [] (some t) = ⊥
InSection (n ∷ opened) (some t) = n ≡ t.number

-- The bounds of sections are nested: `opened` are the sections open before, `left` those open after.
abbrev pub IsNested : List ℕ → List (Elem Term) → List ℕ → Type 0
IsNested opened [] left = opened ≡ left
IsNested opened (inst i ∷ elems) left = InSection opened i.arg × IsNested opened elems left
IsNested opened (section_start n pc ∷ elems) left = IsNested (n ∷ opened) elems left
IsNested [] (section_end n pc ∷ elems) left = ⊥
IsNested (m ∷ opened) (section_end n pc ∷ elems) left = (m ≡ n) × IsNested opened elems left

pub IsNested-append :
    (opened mid left : List ℕ) (xs ys : List (Elem Term))
    → IsNested opened xs mid
    → IsNested mid ys left
    → IsNested opened (xs ++ ys) left
IsNested-append opened mid left [] ys h k = subst (λ o. IsNested o ys left) (sym h) k
IsNested-append opened mid left (inst i ∷ xs) ys h k =
    (h.0, IsNested-append opened mid left xs ys h.1 k)
IsNested-append opened mid left (section_start n pc ∷ xs) ys h k =
    IsNested-append (n ∷ opened) mid left xs ys h k
IsNested-append [] mid left (section_end n pc ∷ xs) ys h k = absurd h
IsNested-append (m ∷ opened) mid left (section_end n pc ∷ xs) ys h k =
    (h.0, IsNested-append opened mid left xs ys h.1 k)

abbrev pub open_sections : Frame → List Frame → List ℕ
open_sections cur parents = cur.number ∷ map (λ f. f.number) parents

-- A label points to an instruction, to a JUMPDEST unless it is dotted.
abbrev pub Lands : List (Instruction Term) → Bool → ℕ → Type 0
Lands insts dotted n =
    (i : Instruction Term) × (get_elem? insts n ≡ some i) × (dotted ≡ false → i.op ≡ "JUMPDEST")

-- Until then it waits, and is of a kind that may.
abbrev pub Points :
    (Bool → Type 0) → List (Instruction Term) → List ℕ → ℕ → Bool → Option ℕ → Type 0
Points Waits insts current number dotted none = (member number current ≡ true) × Waits dotted
Points Waits insts current number dotted (some n) =
    (member number current ≡ false) × Lands insts dotted n

abbrev pub LabelInv : (Bool → Type 0) → List (Instruction Term) → List ℕ → ℕ → PendingLabel → Type 0
LabelInv Waits insts current fresh l =
    (l.number < fresh) × Points Waits insts current l.number l.def.dotted l.instr

abbrev pub IsDotted : Bool → Type 0
IsDotted d = d ≡ true

abbrev pub MayLand : String → Bool → Type 0
MayLand op d = d ≡ false → op ≡ "JUMPDEST"

abbrev pub WfWith : (Bool → Type 0) → InstructionSet → Prog → Type 0
WfWith Waits is p =
    IsNested [] p.elems (open_sections p.cur p.parents)
    × All (IsExpanded is) (instructions p.elems)
    × All (LabelInv Waits (instructions p.elems) p.current_labels p.fresh) p.labels

abbrev pub IsWf : InstructionSet → Prog → Type 0
IsWf = WfWith IsDotted

pub instructions-append :
    (xs ys : List (Elem Term)) → instructions (xs ++ ys) ≡ instructions xs ++ instructions ys
unfolding instructions
instructions-append [] ys = refl
instructions-append (inst i ∷ xs) ys = ap (◌∷◌ i) (instructions-append xs ys)
instructions-append (section_start n pc ∷ xs) ys = instructions-append xs ys
instructions-append (section_end n pc ∷ xs) ys = instructions-append xs ys

pub All-append {ℓ κ} :
    {A : Type ℓ} (P : A → Type κ) (xs ys : List A) → All P xs → All P ys → All P (xs ++ ys)
All-append P [] ys hx hy = hy
All-append P (x ∷ xs) ys hx hy = (hx.0, All-append P xs ys hx.1 hy)

pub All-weaken {ℓ κ ι} :
    {A : Type ℓ} (P : A → Type κ) (Q : A → Type ι) (xs : List A)
    → ((x : A) → P x → Q x)
    → All P xs
    → All Q xs
All-weaken P Q [] h all = tt
All-weaken P Q (x ∷ xs) h all = (h x all.0, All-weaken P Q xs h all.1)

get_elem?-append {ℓ} :
    {A : Type ℓ} (xs ys : List A) (n : ℕ) (a : A)
    → get_elem? xs n ≡ some a
    → get_elem? (xs ++ ys) n ≡ some a
get_elem?-append [] ys n a h = absurd (ground arith)
get_elem?-append (x ∷ xs) ys zero a h = h
get_elem?-append (x ∷ xs) ys (suc n) a h = get_elem?-append xs ys n a h

get_elem?-last {ℓ} :
    {A : Type ℓ} (xs : List A) (a : A) → get_elem? (xs ++ a ∷ []) (length xs) ≡ some a
get_elem?-last [] a = refl
get_elem?-last (x ∷ xs) a = get_elem?-last xs a

module _ (insts : List (Instruction Term)) (i : Instruction Term) (current : List ℕ)
    (fresh : ℕ) where
  linked :
      (number : ℕ) (dotted : Bool) (o : Option ℕ)
      → member number current ≡ false
      → Points (MayLand i.op) insts current number dotted o
      → Points IsDotted (insts ++ i ∷ []) [] number dotted o
  unfolding member
  linked number dotted none e h = absurd (cc (h.0, e))
  linked number dotted (some n) e (m, (j, found, lands)) =
      (refl, (j, get_elem?-append insts (i ∷ []) n j found, lands))

  Lands-now :
      (number : ℕ) (dotted : Bool) (o : Option ℕ)
      → member number current ≡ true
      → Points (MayLand i.op) insts current number dotted o
      → Lands (insts ++ i ∷ []) dotted (length insts)
  Lands-now number dotted none e h = (i, get_elem?-last insts i, h.1)
  Lands-now number dotted (some n) e h = absurd (cc (h.0, e))

  link-LabelInv :
      (labels : List PendingLabel)
      → All (LabelInv (MayLand i.op) insts current fresh) labels
      → All (LabelInv IsDotted (insts ++ i ∷ []) [] fresh) (link (length insts) current labels)
  unfolding link member
  link-LabelInv [] all = tt
  link-LabelInv (l ∷ labels) all = elim (Bool-cases (member l.number current)) [
    | inl e ↦ rw e (
      (all.0.0, (refl, Lands-now l.number l.def.dotted l.instr e all.0.1)),
      link-LabelInv labels all.1,
    )
    | inr e ↦
        rw e ((all.0.0, linked l.number l.def.dotted l.instr e all.0.1), link-LabelInv labels all.1)
  ]

-- What a statement leaves as it was.
abbrev pub Same : Prog → Prog → Type 0
Same p q =
    (q.cur ≡ p.cur)
    × (q.parents ≡ p.parents)
    × (q.macro_stack ≡ p.macro_stack)
    × (q.toplevel ≡ p.toplevel)

pub Same-refl : (p : Prog) → Same p p
Same-refl p = (refl, refl, refl, refl)

pub Same-trans : (p q r : Prog) → Same p q → Same q r → Same p r
Same-trans p q r a b = (b.0 ∙ a.0, b.1 ∙ a.1, b.2 ∙ a.2, b.3 ∙ a.3)

-- It does not panic, and it ends.
abbrev pub Ends : InstructionSet → Prog → Outcome → Type 0
Ends is p (finished e q) = Same p q × IsWf is q
Ends is p panicked = ⊥
Ends is p out_of_fuel = ⊥

pub if-Ends :
    (is : InstructionSet) (p : Prog) (b : Bool) (x y : Outcome)
    → (b ≡ true → Ends is p x)
    → (b ≡ false → Ends is p y)
    → Ends is p (if b then x else y)
if-Ends is p true x y h k = h refl
if-Ends is p false x y h k = k refl

pub add_instruction-IsWf :
    (is : InstructionSet) (i : Instruction Term) (p : Prog)
    → WfWith (MayLand i.op) is p
    → IsExpanded is i
    → InSection (open_sections p.cur p.parents) i.arg
    → IsWf is (add_instruction i p)
unfolding add_instruction instructions
add_instruction-IsWf is i p (nested, expanded, labels) made within =
    let same = instructions-append p.elems (inst i ∷ []) in
    (
      IsNested-append [] (open_sections p.cur p.parents) (open_sections p.cur p.parents) p.elems
          (inst i ∷ []) nested (within, refl),
      subst (All (IsExpanded is)) (sym same)
          (All-append (IsExpanded is) (instructions p.elems) (i ∷ []) expanded (made, tt)),
      subst
          (λ insts.
            All (LabelInv IsDotted insts [] p.fresh)
              (link (length (instructions p.elems)) p.current_labels p.labels))
          (sym same)
          (link-LabelInv (instructions p.elems) i p.current_labels p.fresh p.labels labels),
    )
