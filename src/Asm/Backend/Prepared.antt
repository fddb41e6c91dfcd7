-- ===== src/Asm/Backend/Prepared.antt =====
-- What holds of an instruction from pre-evaluation on: it has an encoding already, or it is a PUSH
-- that the layout loop gives its argument.
use geas.Prelude.{
  ℕ, ◌-◌, ◌≤◌, ◌<◌, ◌≡◌, ◌⊎◌, inl, sym, ap, ◌∙◌, Bool, true, false, none, some, List, String, ◌==◌,
  string_eq, nat_eq, length, arith,
}
use mathlib.Core.Path.{subst}
use geas.Evm.Op.{Op}
use geas.Evm.Defs.{InstructionSet}
use geas.Evm.InstructionSet.{supports_push0}
use geas.Asm.Program.{Instruction, is_bytes, is_push}
use geas.Asm.Arguments.{
  Evaluator, assigned, refused, evaluate_arg, assign_push_arg, variable_push_overflow,
  auto_push_size,
}
use geas.Asm.Layout.{bump}
use geas.Asm.Output.{resolve_push}
use geas.Asm.Output.Encoding.{Encodes, raw, push, plain, immediate, nothing}
use geas.Asm.Layout.Fixpoint.{IsUpdate, evaluate_arg-IsUpdate, IsSettled}
use geas.Asm.Layout.Termination.{evaluate_arg-grows}
use geas.Prelude.Int.{ℤ}
use geas.Asm.Backend.Kept.{IsKept}

-- A PUSH whose opcode exists, for every size from one byte on, and without bytes too if the fork
-- has PUSH0.
abbrev pub HasOpcodes : InstructionSet → String → Type 0
HasOpcodes is name =
    (n : ℕ)
    → n ≤ 32
    → (0 < n) ⊎ (supports_push0 is ≡ true)
    → (o : Op) × (resolve_push is name n ≡ some o)

module _ {E : Type 0} (is : InstructionSet) where
  -- The loop does nothing to the instruction.
  abbrev pub IsQuiet : Instruction E → Type 0
  IsQuiet i =
      (i.arg_no_labels ≡ true)
      ⊎ ((is_bytes i.op ≡ false) × ((is_push i.op ≡ false) ⊎ (i.arg ≡ none)))

  pub record IsPending (i : Instruction E) : Type 0 where
    pub term : E
    pub has_arg : i.arg ≡ some term
    pub not_raw : is_bytes i.op ≡ false
    pub is_push_op : is_push i.op ≡ true
    pub not_empty : (i.op == "") ≡ false
    pub some_byte : 0 < i.data_size
    pub at_most : i.data_size ≤ 32
    pub opcodes : HasOpcodes is i.op

  pub data Prepared (i : Instruction E) : Type 0 where
    ready : (bs : List ℕ) → IsQuiet i → Encodes is i bs → Prepared i
    pending : i.arg_no_labels ≡ false → IsPending i → Prepared i

  pub quiet_stays :
      (push0 : Bool) (eval : Evaluator E) (pcs : List ℕ) (i : Instruction E)
      → IsQuiet i
      → evaluate_arg push0 eval pcs i ≡ assigned i
  unfolding evaluate_arg
  quiet_stays push0 eval pcs i q = ground arith

  pub Encodes-moved :
      (i : Instruction E) (pc : ℕ) (bs : List ℕ)
      → Encodes is i bs
      → Encodes is (record i { pc = pc }) bs
  Encodes-moved i pc _ (raw b s) = raw b s
  Encodes-moved i pc _ (push o pad b p n r le s) = push o pad b p n r le s
  Encodes-moved i pc _ (plain o b p n r d s) = plain o b p n r d s
  Encodes-moved i pc _ (immediate o imm b p n r h d s) = immediate o imm b p n r h d s
  Encodes-moved i pc _ (nothing b p n d s) = nothing b p n d s

  IsPending-moved : (i : Instruction E) (pc : ℕ) → IsPending i → IsPending (record i { pc = pc })
  IsPending-moved i pc h = record {
    term = h.term;
    has_arg = h.has_arg;
    not_raw = h.not_raw;
    is_push_op = h.is_push_op;
    not_empty = h.not_empty;
    some_byte = h.some_byte;
    at_most = h.at_most;
    opcodes = h.opcodes;
  }

  IsPending-updated : (i j : Instruction E) → IsUpdate i j → IsPending i → IsPending j
  IsPending-updated i j u h = record {
    term = h.term;
    has_arg = u.same_arg ∙ h.has_arg;
    not_raw = ap is_bytes u.same_op ∙ h.not_raw;
    is_push_op = ap is_push u.same_op ∙ h.is_push_op;
    not_empty = ap (λ name. name == "") u.same_op ∙ h.not_empty;
    some_byte = subst (λ n. 0 < n) (sym u.same_size) h.some_byte;
    at_most = subst (λ n. n ≤ 32) (sym u.same_size) h.at_most;
    opcodes = subst (HasOpcodes is) (sym u.same_op) h.opcodes;
  }

  IsPending-bumped : (i : Instruction E) → i.data_size < 32 → IsPending i → IsPending (bump i)
  IsPending-bumped i less h = record {
    term = h.term;
    has_arg = h.has_arg;
    not_raw = h.not_raw;
    is_push_op = h.is_push_op;
    not_empty = h.not_empty;
    some_byte = omega arith;
    at_most = omega arith;
    opcodes = h.opcodes;
  }

  Prepared-evaluated :
      (push0 : Bool) (eval : Evaluator E) (pcs : List ℕ) (i j : Instruction E)
      → evaluate_arg push0 eval pcs i ≡ assigned j
      → Prepared i
      → Prepared j
  Prepared-evaluated push0 eval pcs i j h (ready bs q enc) =
      let same : i ≡ j = cc (h, quiet_stays push0 eval pcs i q) in
      subst Prepared same (ready bs q enc)
  Prepared-evaluated push0 eval pcs i j h (pending lab p) =
      let u = evaluate_arg-IsUpdate push0 eval pcs i j h in
      pending (u.same_labels ∙ lab) (IsPending-updated i j u p)

  Prepared-bumped :
      (push0 : Bool) (eval : Evaluator E) (pcs : List ℕ) (i : Instruction E)
      → evaluate_arg push0 eval pcs i ≡ refused variable_push_overflow
      → Prepared i
      → Prepared (bump i)
  Prepared-bumped push0 eval pcs i h (ready bs q enc) =
      let clash : refused variable_push_overflow ≡ assigned i =
        sym h ∙ quiet_stays push0 eval pcs i q in
      absurd (cc clash)
  Prepared-bumped push0 eval pcs i h (pending lab p) =
      pending lab (IsPending-bumped i (evaluate_arg-grows push0 eval pcs i h) p)

  Prepared-moved : (i : Instruction E) (pc : ℕ) → Prepared i → Prepared (record i { pc = pc })
  Prepared-moved i pc (ready bs q enc) = ready bs q (Encodes-moved i pc bs enc)
  Prepared-moved i pc (pending lab p) = pending lab (IsPending-moved i pc p)

  pub Prepared-IsKept : (push0 : Bool) (eval : Evaluator E) → IsKept push0 eval Prepared
  Prepared-IsKept push0 eval = record {
    moved = Prepared-moved;
    evaluated = Prepared-evaluated push0 eval;
    bumped = Prepared-bumped push0 eval;
  }

  -- After the layout an instruction has an encoding.
  pub Prepared-Encodes :
      (eval : Evaluator E) (pcs : List ℕ) (i : Instruction E)
      → Prepared i
      → IsSettled eval pcs i
      → (bs : List ℕ) × Encodes is i bs
  Prepared-Encodes eval pcs i (ready bs q enc) h = (bs, enc)
  Prepared-Encodes eval pcs i (pending lab p) h =
      let stored = h p.term lab p.is_push_op p.has_arg in
      let (o, found) = p.opcodes i.data_size p.at_most (inl p.some_byte) in
      let fits = stored.fits in
      (
        _,
        push o (i.data_size - length i.data_bytes) p.not_raw p.is_push_op p.not_empty found
            p.at_most (omega arith),
      )

  pub assigned_facts :
      (push0 : Bool) (i j : Instruction E) (v : ℤ)
      → 0 < i.data_size
      → i.data_size ≤ 32
      → assign_push_arg push0 i v true ≡ assigned j
      → (j.op ≡ i.op)
        × (j.arg_no_labels ≡ i.arg_no_labels)
        × (j.data_size ≤ 32)
        × (length j.data_bytes ≤ j.data_size)
        × ((0 < j.data_size) ⊎ (push0 ≡ true))
  unfolding assign_push_arg auto_push_size
  assigned_facts push0 i j v positive most h =
      (ground arith, ground arith, ground arith, ground arith, ground arith)
