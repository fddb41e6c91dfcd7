-- ===== src/Asm/Backend/Sources.antt =====
-- How an instruction of the compiled program comes from the one that the expansion made.
use geas.Prelude.{
  ℕ, ◌≡◌, ◌≢◌, ◌⊎◌, inl, inr, sym, ap, ◌∙◌, Bool, true, false, none, some, List, string_eq, arith,
  Bool-cases,
}
use mathlib.Core.Path.{subst}
use geas.Prelude.Int.{is_negative, magnitude}
use geas.Lzint
use geas.Lzint.{Value, nat_bytes}
use geas.Asm.Program.{Instruction, is_bytes, is_push}
use geas.Asm.Arguments.{
  Evaluator, value, assigned, refused, evaluate_arg, assign_push_arg, variable_push_overflow,
  unevaluated_bytes,
}
use geas.Asm.Layout.{bump}
use geas.Asm.Layout.Fixpoint.{evaluate_arg-IsUpdate}
use geas.Asm.Backend.Pairs.{IsKeptPair}

module _ {E : Type 0} where
  -- The argument of #bytes has a value without labels, and the data are its bytes.
  pub record HasBytes (eval : Evaluator E) (e : E) (j : Instruction E) : Type 0 where
    pub content : Value
    pub evaluates : eval none e ≡ value content
    pub stored : Lzint.bytes content ≡ Lzint.ok j.data_bytes

  -- The argument of a PUSH has a value without labels, and the data are its bytes.
  pub record HasNumber (eval : Evaluator E) (e : E) (j : Instruction E) : Type 0 where
    pub number : Value
    pub evaluates : eval none e ≡ value number
    pub not_negative : is_negative number.int ≡ false
    pub stored : j.data_bytes ≡ nat_bytes (magnitude number.int)

  -- `j` is `i` with a PC, a size and its argument's bytes. For a PUSH that waits for labels the bytes
  -- are those of IsSettled.
  pub record ComesFrom (eval : Evaluator E) (i j : Instruction E) : Type 0 where
    pub same_op : j.op ≡ i.op
    pub same_arg : j.arg ≡ i.arg
    pub same_pc_label : j.pc_label ≡ i.pc_label
    pub same_explicit : j.explicit_size ≡ i.explicit_size
    pub raw_quiet : is_bytes j.op ≡ true → j.arg_no_labels ≡ true
    pub size_given :
        (n : ℕ) (e : E)
        → i.arg ≡ some e
        → is_bytes i.op ≡ false
        → is_push i.op ≡ true
        → i.explicit_size ≡ some n
        → j.data_size ≡ n
    pub bytes_stored : (e : E) → i.arg ≡ some e → is_bytes i.op ≡ true → HasBytes eval e j
    pub number_stored :
        (e : E)
        → i.arg ≡ some e
        → is_bytes i.op ≡ false
        → is_push i.op ≡ true
        → j.arg_no_labels ≡ true
        → HasNumber eval e j
    pub data_kept :
        is_bytes i.op ≡ false
        → (is_push i.op ≡ false) ⊎ (i.arg ≡ none)
        → j.data_bytes ≡ i.data_bytes

  module _ (push0 : Bool) (eval : Evaluator E) where
    ComesFrom-moved :
        (i j : Instruction E) (pc : ℕ)
        → ComesFrom eval i j
        → ComesFrom eval i (record j { pc = pc })
    ComesFrom-moved i j pc c = record {
      same_op = c.same_op;
      same_arg = c.same_arg;
      same_pc_label = c.same_pc_label;
      same_explicit = c.same_explicit;
      raw_quiet = c.raw_quiet;
      size_given = c.size_given;
      bytes_stored = λ e a b.
          let s = c.bytes_stored e a b in
          record { content = s.content; evaluates = s.evaluates; stored = s.stored };
      number_stored = λ e a b p q.
          let s = c.number_stored e a b p q in
          record {
            number = s.number;
            evaluates = s.evaluates;
            not_negative = s.not_negative;
            stored = s.stored;
          };
      data_kept = c.data_kept;
    }

    -- The round has nothing to do for the instruction.
    unchanged :
        (pcs : List ℕ) (j k : Instruction E)
        → (j.arg_no_labels ≡ true)
          ⊎ ((is_bytes j.op ≡ false) × ((is_push j.op ≡ false) ⊎ (j.arg ≡ none)))
        → evaluate_arg push0 eval pcs j ≡ assigned k
        → j ≡ k
    unfolding evaluate_arg
    unchanged pcs j k quiet h = ground arith

    same_directives :
        (pcs : List ℕ) (j k : Instruction E)
        → evaluate_arg push0 eval pcs j ≡ assigned k
        → (k.pc_label ≡ j.pc_label) × (k.explicit_size ≡ j.explicit_size)
    unfolding evaluate_arg assign_push_arg
    same_directives pcs j k h = (ground arith, ground arith)

    data_stays :
        (pcs : List ℕ) (i j k : Instruction E)
        → evaluate_arg push0 eval pcs j ≡ assigned k
        → ComesFrom eval i j
        → is_bytes i.op ≡ false
        → (is_push i.op ≡ false) ⊎ (i.arg ≡ none)
        → k.data_bytes ≡ i.data_bytes
    data_stays pcs i j k h c b (inl p) =
        let same =
          unchanged pcs j k (inr (ap is_bytes c.same_op ∙ b, inl (ap is_push c.same_op ∙ p))) h in
        ap (λ x. x.data_bytes) (sym same) ∙ c.data_kept b (inl p)
    data_stays pcs i j k h c b (inr a) =
        let same = unchanged pcs j k (inr (ap is_bytes c.same_op ∙ b, inr (c.same_arg ∙ a))) h in
        ap (λ x. x.data_bytes) (sym same) ∙ c.data_kept b (inr a)

    ComesFrom-evaluated :
        (pcs : List ℕ) (i j k : Instruction E)
        → evaluate_arg push0 eval pcs j ≡ assigned k
        → ComesFrom eval i j
        → ComesFrom eval i k
    ComesFrom-evaluated pcs i j k h c = elim (Bool-cases j.arg_no_labels) [
      | inl q ↦ subst (ComesFrom eval i) (unchanged pcs j k (inl q) h) c
      | inr q ↦
          let u = evaluate_arg-IsUpdate push0 eval pcs j k h in
          let (same_label, same_size) = same_directives pcs j k h in
          record {
            same_op = u.same_op ∙ c.same_op;
            same_arg = u.same_arg ∙ c.same_arg;
            same_pc_label = same_label ∙ c.same_pc_label;
            same_explicit = same_size ∙ c.same_explicit;
            raw_quiet = λ b. u.same_labels ∙ c.raw_quiet (ap is_bytes (sym u.same_op) ∙ b);
            size_given = λ n e a b p s. u.same_size ∙ c.size_given n e a b p s;
            bytes_stored = λ e a b. absurd (cc (q, c.raw_quiet (ap is_bytes c.same_op ∙ b)));
            number_stored = λ e a b p labels. absurd (cc (q, sym u.same_labels ∙ labels));
            data_kept = data_stays pcs i j k h c;
          }
    ]

    no_size_given :
        (pcs : List ℕ) (j : Instruction E) (n : ℕ)
        → evaluate_arg push0 eval pcs j ≡ refused variable_push_overflow
        → j.explicit_size ≢ some n
    unfolding evaluate_arg assign_push_arg
    no_size_given pcs j n h s = ground arith

    ComesFrom-bumped :
        (pcs : List ℕ) (i j : Instruction E)
        → evaluate_arg push0 eval pcs j ≡ refused variable_push_overflow
        → ComesFrom eval i j
        → ComesFrom eval i (bump j)
    ComesFrom-bumped pcs i j h c = record {
      same_op = c.same_op;
      same_arg = c.same_arg;
      same_pc_label = c.same_pc_label;
      same_explicit = c.same_explicit;
      raw_quiet = c.raw_quiet;
      size_given = λ n e a b p s. absurd (no_size_given pcs j n h (c.same_explicit ∙ s));
      bytes_stored = λ e a b.
          let s = c.bytes_stored e a b in
          record { content = s.content; evaluates = s.evaluates; stored = s.stored };
      number_stored = λ e a b p q.
          let s = c.number_stored e a b p q in
          record {
            number = s.number;
            evaluates = s.evaluates;
            not_negative = s.not_negative;
            stored = s.stored;
          };
      data_kept = c.data_kept;
    }

    quiet_sound :
        (pcs : List ℕ) (j : Instruction E)
        → (is_bytes j.op ≡ true → j.arg_no_labels ≡ true)
        → evaluate_arg push0 eval pcs j ≢ refused unevaluated_bytes
    unfolding evaluate_arg assign_push_arg
    quiet_sound pcs j q h = elim (Bool-cases (is_bytes j.op)) [
      | inl b ↦ let quiet = q b in ground arith
      | inr b ↦ ground arith
    ]

    pub ComesFrom-IsKeptPair : IsKeptPair push0 eval (ComesFrom eval)
    ComesFrom-IsKeptPair = record {
      moved = ComesFrom-moved;
      evaluated = ComesFrom-evaluated;
      bumped = ComesFrom-bumped;
      sound = λ pcs i j c. quiet_sound pcs j c.raw_quiet;
    }

    -- What is left of it when pre-evaluation reports an error.
    abbrev pub IsQuietRaw : Instruction E → Instruction E → Type 0
    IsQuietRaw i j = is_bytes j.op ≡ true → j.arg_no_labels ≡ true

    pub IsQuietRaw-IsKeptPair : IsKeptPair push0 eval IsQuietRaw
    IsQuietRaw-IsKeptPair = record {
      moved = λ i j pc q. q;
      evaluated = λ pcs i j k h q b.
          let u = evaluate_arg-IsUpdate push0 eval pcs j k h in
          u.same_labels ∙ q (ap is_bytes (sym u.same_op) ∙ b);
      bumped = λ pcs i j h q. q;
      sound = λ pcs i j q. quiet_sound pcs j q;
    }
