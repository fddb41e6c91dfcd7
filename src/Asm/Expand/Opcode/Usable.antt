-- ===== src/Asm/Expand/Opcode/Usable.antt =====
-- What an instruction set must have, and what follows for names and for one more instruction.
use geas.Prelude.{
  ℕ, ◌<◌, ◌≤◌, ◌≡◌, ◌⊎◌, refl, inl, inr, Bool, true, false, Option, none, some, List, String, ◌==◌,
  nat_eq, string_eq, eq_iff, arith, Bool-cases,
}
use mathlib.Core.Path.{subst}
use geas.Ast.{Expr}
use geas.Evm.Op.{Op}
use geas.Evm.Defs.{InstructionSet}
use geas.Evm.InstructionSet.{op_by_name}
use geas.Asm.Program.{Instruction, is_bytes, is_push}
use geas.Asm.Output.{resolve_push}
use geas.Asm.Backend.Prepared.{HasOpcodes}
use geas.Asm.Backend.PreEvaluated.{IsExpanded}
use geas.Asm.Expand.Defs.{Term, Prog, Outcome, add_instruction, located}
use geas.Asm.Expand.Resolve.{resolve_op, resolve_op-cases, after_resolved}
use geas.Asm.Expand.Opcode.{explicit_push_size}
use geas.Asm.Expand.Invariant.{
  InSection, open_sections, Points, IsDotted, MayLand, WfWith, IsWf, Same, Same-refl, Ends,
  add_instruction-IsWf, All-weaken,
}

-- What the assembler relies on in an instruction set: it has the opcodes of PUSH, and JUMPDEST, and
-- no instruction has the name of a directive or no name.
pub record IsUsable (is : InstructionSet) : Type 0 where
  pub pushes : HasOpcodes is "PUSH"
  pub jumpdest : Op
  pub has_jumpdest : op_by_name is "JUMPDEST" ≡ some jumpdest
  pub no_directive : op_by_name is "#bytes" ≡ none
  pub no_empty : op_by_name is "" ≡ none

-- The size that the parser keeps for the name of an instruction, which is one more than what the
-- digits after PUSH say.
pub record IsSized (is : InstructionSet) (name : String) (size : ℕ) : Type 0 where
  pub at_most : size ≤ 33
  pub zero_bytes : size ≡ 1 → (name ≡ "PUSH0") ⊎ (op_by_name is name ≡ none)
  pub no_digits : name ≡ "PUSH" → size ≡ 0
  pub no_push : is_push name ≡ false → size ≡ 0

pub Points-weaken :
    (insts : List (Instruction Term)) (current : List ℕ) (number : ℕ) (dotted : Bool)
    (name : String) (o : Option ℕ)
    → Points IsDotted insts current number dotted o
    → Points (MayLand name) insts current number dotted o
Points-weaken insts current number dotted name none h = (h.0, λ e. absurd (cc (h.1, e)))
Points-weaken insts current number dotted name (some n) h = h

pub IsWf-MayLand :
    (is : InstructionSet) (name : String) (p : Prog) → IsWf is p → WfWith (MayLand name) is p
IsWf-MayLand is name p (nested, expanded, labels) = (
  nested,
  expanded,
  All-weaken _ _ p.labels (λ l h. (h.0, Points-weaken _ _ l.number l.def.dotted name l.instr h.1))
      labels,
)

pub located-InSection :
    (p : Prog) (e : Option Expr) → InSection (open_sections p.cur p.parents) (located p e)
located-InSection p none = tt
located-InSection p (some e) = refl

-- One more instruction.
pub add-Ends :
    (is : InstructionSet) (i : Instruction Term) (p : Prog)
    → IsWf is p
    → IsExpanded is i
    → InSection (open_sections p.cur p.parents) i.arg
    → Same p (add_instruction i p) × IsWf is (add_instruction i p)
unfolding add_instruction
add-Ends is i p wf made within =
    (Same-refl p, add_instruction-IsWf is i p (IsWf-MayLand is i.op p wf) made within)

pub after_resolved-Ends :
    (is : InstructionSet) (fork : Option InstructionSet) (name : String) (p : Prog)
    (next : Op → Outcome)
    → fork ≡ some is
    → IsWf is p
    → ((o : Op) → op_by_name is name ≡ some o → Ends is p (next o))
    → Ends is p (after_resolved (resolve_op fork name) p next)
unfolding after_resolved
after_resolved-Ends is fork name p next h wf found = elim (resolve_op-cases is name) [
  | inl (e, r) ↦ rw (h, r) (Same-refl p, wf)
  | inr (o, r, e) ↦ rw (h, r) (found o e)
]

pub named : (name text : String) → (name == text) ≡ true → name ≡ text
named name text h = (eq_iff name text).0 h

pub is_push-not_raw : (name : String) → is_push name ≡ true → is_bytes name ≡ false
is_push-not_raw name h = elim (Bool-cases (name == "#bytes")) [
  | inl e ↦ absurd (absent (subst (λ s. is_push s ≡ true) (named name "#bytes" e) h))
  | inr e ↦ e
]
  where
    absent : is_push "#bytes" ≡ true → ⊥
    absent e = cc e

pub is_push-not_empty : (name : String) → is_push name ≡ true → (name == "") ≡ false
is_push-not_empty name h = elim (Bool-cases (name == "")) [
  | inl e ↦ absurd (absent (subst (λ s. is_push s ≡ true) (named name "" e) h))
  | inr e ↦ e
]
  where
    absent : is_push "" ≡ true → ⊥
    absent e = cc e

-- The name of an instruction is not that of a directive, and not empty.
pub op_by_name-not_raw :
    (is : InstructionSet) (name : String) (o : Op)
    → IsUsable is
    → op_by_name is name ≡ some o
    → is_bytes name ≡ false
op_by_name-not_raw is name o u h = elim (Bool-cases (name == "#bytes")) [
  | inl e ↦
      absurd (cc (u.no_directive, subst (λ s. op_by_name is s ≡ some o) (named name "#bytes" e) h))
  | inr e ↦ e
]

pub op_by_name-not_empty :
    (is : InstructionSet) (name : String) (o : Op)
    → IsUsable is
    → op_by_name is name ≡ some o
    → (name == "") ≡ false
op_by_name-not_empty is name o u h = elim (Bool-cases (name == "")) [
  | inl e ↦ absurd (cc (u.no_empty, subst (λ s. op_by_name is s ≡ some o) (named name "" e) h))
  | inr e ↦ e
]

pub resolved-HasOpcodes :
    (is : InstructionSet) (name : String) (o : Op)
    → (name == "PUSH") ≡ false
    → op_by_name is name ≡ some o
    → HasOpcodes is name
unfolding resolve_push
resolved-HasOpcodes is name o e h n le some_byte = (o, rw e h)

pub sizes_in_range :
    (size n : ℕ)
    → size ≤ 33
    → (size ≡ 1 → ⊥)
    → explicit_push_size size ≡ some n
    → (0 < n) × (n ≤ 32)
unfolding explicit_push_size
sizes_in_range size n most not_zero h = ground arith

pub no_size : (size : ℕ) → size ≡ 0 → explicit_push_size size ≡ none
unfolding explicit_push_size
no_size size h = ground arith
