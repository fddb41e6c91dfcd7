-- ===== src/Asm/Analysis/Unused.antt =====
-- The labels that checkLabelsUsed warns about.
use geas.Prelude.{
  ℕ, ◌≡◌, refl, Bool, false, not, ◌&&◌, ◌||◌, List, [], ◌∷◌, inl, inr, Bool-cases, nat_beq_iff,
  arith,
}
use geas.Ast.{LabelDef}
use geas.Asm.Evaluator.{CompilerLabel}
use geas.Asm.Evaluator.Builtins.{member}
use geas.Asm.Analysis.{unused_loop, check_labels_used}

abbrev pub ids : List LabelDef → List ℕ
ids [] = []
ids (d ∷ defs) = d.id ∷ ids defs

abbrev pub label_ids : List CompilerLabel → List ℕ
label_ids [] = []
label_ids (l ∷ labels) = l.def.id ∷ label_ids labels

abbrev pub has_repeat : List ℕ → Bool
has_repeat [] = false
has_repeat (n ∷ ns) = member n ns || has_repeat ns

member-unused_loop :
    (used seen : List ℕ) (labels : List CompilerLabel) (n : ℕ)
    → member n (ids (unused_loop used seen labels))
      ≡ (member n (label_ids labels) && (not (member n seen) && not (member n used)))
unfolding unused_loop member
member-unused_loop used seen [] n = refl
member-unused_loop used seen (l ∷ labels) n = elim (Bool-cases (member l.def.id seen)) [
  | inl e ↦ rw e (ground (arith, member-unused_loop used seen labels n, nat_beq_iff n l.def.id, e))
  | inr e ↦ rw e (
      ground (arith, member-unused_loop used (l.def.id ∷ seen) labels n, nat_beq_iff n l.def.id, e))
]

has_repeat-unused_loop :
    (used seen : List ℕ) (labels : List CompilerLabel)
    → has_repeat (ids (unused_loop used seen labels)) ≡ false
unfolding unused_loop member
has_repeat-unused_loop used seen [] = refl
has_repeat-unused_loop used seen (l ∷ labels) = elim (Bool-cases (member l.def.id seen)) [
  | inl e ↦ rw e (has_repeat-unused_loop used seen labels)
  | inr e ↦ rw e (
      ground (
        arith,
        has_repeat-unused_loop used (l.def.id ∷ seen) labels,
        member-unused_loop used (l.def.id ∷ seen) labels l.def.id,
        nat_beq_iff l.def.id l.def.id,
        e,
      ))
]

-- A definition is warned about exactly if it is a label of the program that no expression used, and
-- no definition is warned about twice.
pub check_labels_used-member :
    (used : List ℕ) (labels : List CompilerLabel)
    → ((n : ℕ)
        → member n (ids (check_labels_used used labels))
          ≡ (member n (label_ids labels) && not (member n used)))
      × (has_repeat (ids (check_labels_used used labels)) ≡ false)
unfolding check_labels_used
check_labels_used-member used labels = (
  λ n. unfold member in ground (arith, member-unused_loop used [] labels n),
  has_repeat-unused_loop used [] labels,
)
