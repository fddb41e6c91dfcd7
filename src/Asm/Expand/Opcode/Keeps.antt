-- ===== src/Asm/Expand/Opcode/Keeps.antt =====
-- What the expansion of an opcode statement keeps.
use geas.Prelude.{
  ℕ, ◌<◌, ◌≤◌, ◌≡◌, ◌⊎◌, refl, sym, ap, inl, inr, true, false, not, ◌&&◌, Option, none, some, List,
  [], ◌∷◌, String, ◌==◌, nat_eq, string_eq, eq_iff, length, ltb, arith, Bool-cases,
}
use mathlib.Core.Path.{subst}
use geas.Ast.{Document, Expr}
use geas.Evm.Op.{Op}
use geas.Evm.Defs.{InstructionSet, has_duplicate}
use geas.Evm.Oplist.{oplist}
use geas.Evm.InstructionSet.{op_by_name}
use geas.Evm.Immediate.{Encoded, byte, refused, encode_immediate_args}
use geas.Asm.Program.{Instruction, is_push}
use geas.Asm.Output.{resolve_push}
use geas.Asm.Output.Encoding.{push, plain, immediate}
use geas.Asm.Backend.Prepared.{HasOpcodes}
use geas.Asm.Backend.PreEvaluated.{IsExpanded, push_arg, no_arg}
use geas.Asm.Expand.Defs.{Input, ExpandError, Term, Prog, add_instruction, new_instruction}
use geas.Asm.Expand.Resolve.{is_jump}
use geas.Asm.Expand.Opcode.{
  explicit_push_size, push_operand, expand_push, push_dest, add_jump, jump_checked, expand_jump,
  validate_jump_arg, with_immediate, plain_op, no_arg_op, expand_named, expand_opcode,
}
use geas.Asm.Expand.Invariant.{IsWf, Same-refl, Same-trans, Ends, if-Ends}
use geas.Asm.Expand.Opcode.Usable.{
  IsUsable, IsSized, add-Ends, after_resolved-Ends, named, is_push-not_raw, is_push-not_empty,
  op_by_name-not_raw, op_by_name-not_empty, resolved-HasOpcodes, sizes_in_range, no_size,
}

push0_resolves :
    (is : InstructionSet) (name : String) (o : Op) (size : ℕ)
    → name ≡ "PUSH0"
    → op_by_name is name ≡ some o
    → resolve_push is name size ≡ some o
unfolding resolve_push
push0_resolves is name o size e h =
    subst (λ s. resolve_push is s size ≡ some o) (sym e) (subst (λ s. op_by_name is s ≡ some o) e h)

push0_no_jump : is_jump "PUSH0" ≡ false
unfolding is_jump oplist has_duplicate
push0_no_jump = refl

-- A PUSH with an argument, or another instruction.
push_cases :
    (name : String)
    → ((is_push name ≡ true) × ((name == "PUSH0") ≡ false))
      ⊎ (((is_push name ≡ false) ⊎ (name ≡ "PUSH0"))
          × ((is_push name && not (name == "PUSH0")) ≡ false))
push_cases name = elim (Bool-cases (is_push name)) [
  | inl a ↦ elim (Bool-cases (name == "PUSH0")) [
    | inl b ↦ inr (inr (named name "PUSH0" b), rw (a, b) refl)
    | inr b ↦ inl (a, b)
  ]
  | inr a ↦ inr (inl a, rw a refl)
]

module _ (inp : Input) (is : InstructionSet) (known : inp.fork ≡ some is) (u : IsUsable is) where
  push-IsExpanded :
      (name : String) (e : Expr) (size : Option ℕ) (p : Prog)
      → is_push name ≡ true
      → ((n : ℕ) → size ≡ some n → (0 < n) × (n ≤ 32))
      → HasOpcodes is name
      → IsExpanded is (new_instruction p name (some e) size none)
  push-IsExpanded name e size p is_push_op sizes opcodes = push_arg (record {
    term = _;
    has_arg = refl;
    not_raw = is_push-not_raw name is_push_op;
    is_push_op = is_push_op;
    not_empty = is_push-not_empty name is_push_op;
    not_evaluated = refl;
    sizes = sizes;
    opcodes = opcodes;
  })

  push_arg-Ends :
      (name : String) (e : Option Expr) (size : ℕ) (p : Prog)
      → IsWf is p
      → is_push name ≡ true
      → size ≤ 33
      → (size ≡ 1 → ⊥)
      → HasOpcodes is name
      → Ends is p (push_operand inp name e size p)
  unfolding push_operand
  push_arg-Ends name none size p wf is_push_op most not_zero opcodes = (Same-refl p, wf)
  push_arg-Ends name (some e) size p wf is_push_op most not_zero opcodes =
      add-Ends is (new_instruction p name (some e) (explicit_push_size size) none) p wf
        (push-IsExpanded name e (explicit_push_size size) p is_push_op
          (λ n h. sizes_in_range size n most not_zero h) opcodes)
        refl

  not_one :
      (name : String) (size : ℕ) (o : Op)
      → IsSized is name size
      → op_by_name is name ≡ some o
      → (name == "PUSH0") ≡ false
      → size ≡ 1
      → ⊥
  not_one name size o sized found not_zero one = elim (sized.zero_bytes one) [
    | inl e ↦ cc ((eq_iff name "PUSH0").1 e, not_zero)
    | inr e ↦ cc (e, found)
  ]

  expand_push-Ends :
      (name : String) (e : Option Expr) (size : ℕ) (p : Prog)
      → IsWf is p
      → IsSized is name size
      → is_push name ≡ true
      → (name == "PUSH0") ≡ false
      → Ends is p (expand_push inp name e size p)
  unfolding expand_push
  expand_push-Ends name e size p wf sized is_push_op not_zero = elim (Bool-cases (name == "PUSH")) [
    | inl h ↦
        let zero_size = sized.no_digits (named name "PUSH" h) in
        rw h (
          push_arg-Ends name e size p wf is_push_op (omega arith) (λ one. omega arith)
            (subst (HasOpcodes is) (sym (named name "PUSH" h)) u.pushes))
    | inr h ↦ rw h (
        after_resolved-Ends is inp.fork name p _ known wf λ o found.
          push_arg-Ends name e size p wf is_push_op sized.at_most
            (not_one name size o sized found not_zero) (resolved-HasOpcodes is name o h found))
  ]

  -- An instruction of the set with an immediate byte or none; PUSH0 is one.
  made-IsExpanded :
      (i : Instruction Term) (o : Op)
      → op_by_name is i.op ≡ some o
      → i.arg ≡ none
      → (is_push i.op ≡ false) ⊎ (i.op ≡ "PUSH0")
      → ((i.data_bytes ≡ []) × (i.data_size ≡ 0))
        ⊎ ((imm : ℕ) × (i.data_bytes ≡ imm ∷ []) × (i.data_size ≡ 1) × (o.has_immediate ≡ true))
      → IsExpanded is i
  made-IsExpanded i o found no_term (inl not_push) (inl (no_bytes, width)) =
      no_arg _ (op_by_name-not_raw is i.op o u found) (inl not_push) (
        plain o (op_by_name-not_raw is i.op o u found) not_push
          (op_by_name-not_empty is i.op o u found) found no_bytes width)
  made-IsExpanded i o found no_term (inl not_push) (inr (imm, one_byte, one, has)) =
      no_arg _ (op_by_name-not_raw is i.op o u found) (inl not_push) (
        immediate o imm (op_by_name-not_raw is i.op o u found) not_push
          (op_by_name-not_empty is i.op o u found) found has one_byte one)
  made-IsExpanded i o found no_term (inr push0) (inl (no_bytes, width)) =
      no_arg _ (op_by_name-not_raw is i.op o u found) (inr no_term) (
        push o 0 (op_by_name-not_raw is i.op o u found) (ap is_push push0)
          (op_by_name-not_empty is i.op o u found)
          (push0_resolves is i.op o i.data_size push0 found) (omega arith)
          (omega (arith, ap length no_bytes)))
  made-IsExpanded i o found no_term (inr push0) (inr (imm, one_byte, one, has)) =
      no_arg _ (op_by_name-not_raw is i.op o u found) (inr no_term) (
        push o 0 (op_by_name-not_raw is i.op o u found) (ap is_push push0)
          (op_by_name-not_empty is i.op o u found)
          (push0_resolves is i.op o i.data_size push0 found) (omega arith)
          (omega (arith, ap length one_byte)))

  jump-Ends :
      (name : String) (e : Option Expr) (size : ℕ) (p : Prog) (o : Op)
      → IsWf is p
      → size ≡ 0
      → is_push name ≡ false
      → op_by_name is name ≡ some o
      → Ends is p (add_jump inp name e size p)
  unfolding add_jump push_dest
  jump-Ends name none size p o wf zero_size not_push found =
      add-Ends is _ p wf (made-IsExpanded _ o found refl (inl not_push) (inl (refl, refl))) tt
  jump-Ends name (some e) size p o wf zero_size not_push found =
      let first =
        add-Ends is (new_instruction p "PUSH" (some e) (explicit_push_size size) none) p wf
          (push-IsExpanded "PUSH" e (explicit_push_size size) p refl
            (λ n h. absurd (cc (h, no_size size zero_size))) u.pushes)
          refl in
      let q =
        add_instruction (new_instruction p "PUSH" (some e) (explicit_push_size size) none) p in
      let second =
        add-Ends is (new_instruction q name (some e) (explicit_push_size size) none) q first.1
          (no_arg _ (op_by_name-not_raw is name o u found) (inl not_push) (
            plain o (op_by_name-not_raw is name o u found) not_push
              (op_by_name-not_empty is name o u found) found refl refl))
          refl in
      (
        Same-trans p q
            (add_instruction (new_instruction q name (some e) (explicit_push_size size) none) q)
            first.0 second.0,
        second.1,
      )

  jump_checked-Ends :
      (refusal : Option ExpandError) (name : String) (e : Option Expr) (size : ℕ) (p : Prog)
      → IsWf is p
      → size ≡ 0
      → is_push name ≡ false
      → Ends is p (jump_checked inp refusal name e size p)
  unfolding jump_checked
  jump_checked-Ends (some x) name e size p wf zero_size not_push = (Same-refl p, wf)
  jump_checked-Ends none name e size p wf zero_size not_push =
      after_resolved-Ends is inp.fork name p _ known wf
        λ o found. jump-Ends name e size p o wf zero_size not_push found

  with_immediate-Ends :
      (name : String) (o : Op) (r : Encoded) (size : ℕ) (p : Prog)
      → IsWf is p
      → op_by_name is name ≡ some o
      → (is_push name ≡ false) ⊎ (name ≡ "PUSH0")
      → o.has_immediate ≡ true
      → Ends is p (with_immediate inp name o r size p)
  unfolding with_immediate
  with_immediate-Ends name o (byte imm) size p wf found kind has =
      add-Ends is _ p wf (made-IsExpanded _ o found refl kind (inr (imm, refl, refl, has))) tt
  with_immediate-Ends name o (refused x) size p wf found kind has = (Same-refl p, wf)

  plain_op-Ends :
      (name : String) (o : Op) (imms : List ℕ) (size : ℕ) (p : Prog)
      → IsWf is p
      → op_by_name is name ≡ some o
      → (is_push name ≡ false) ⊎ (name ≡ "PUSH0")
      → Ends is p (plain_op inp name o imms size p)
  unfolding plain_op
  plain_op-Ends name o imms size p wf found kind =
      if-Ends is p o.has_immediate _ _
        (λ has.
          if-Ends is p (length imms == 0) _ _ (λ e. (Same-refl p, wf))
            λ e. with_immediate-Ends name o (encode_immediate_args o imms) size p wf found kind has)
        λ has.
          if-Ends is p (ltb 0 (length imms)) _ _ (λ e. (Same-refl p, wf))
            λ e.
              add-Ends is (new_instruction p name none (explicit_push_size size) none) p wf
                (made-IsExpanded _ o found refl kind (inl (refl, refl))) tt

  no_arg_op-Ends :
      (name : String) (e : Option Expr) (o : Op) (imms : List ℕ) (size : ℕ) (p : Prog)
      → IsWf is p
      → op_by_name is name ≡ some o
      → (is_push name ≡ false) ⊎ (name ≡ "PUSH0")
      → Ends is p (no_arg_op inp name e o imms size p)
  unfolding no_arg_op
  no_arg_op-Ends name (some e) o imms size p wf found kind = (Same-refl p, wf)
  no_arg_op-Ends name none o imms size p wf found kind =
      plain_op-Ends name o imms size p wf found kind

  no_jump :
      (name : String)
      → (is_push name ≡ false) ⊎ (name ≡ "PUSH0")
      → is_jump name ≡ true
      → is_push name ≡ false
  no_jump name (inl e) h = e
  no_jump name (inr e) h = absurd (cc (subst (λ s. is_jump s ≡ true) e h, push0_no_jump))

  expand_named-Ends :
      (name : String) (doc : Document) (e : Option Expr) (imms : List ℕ) (size : ℕ) (p : Prog)
      → IsWf is p
      → IsSized is name size
      → Ends is p (expand_named inp name doc e imms size p)
  unfolding expand_named expand_jump
  expand_named-Ends name doc e imms size p wf sized = elim (push_cases name) [
    | inl (a, b) ↦ rw (a, b) (expand_push-Ends name e size p wf sized a b)
    | inr (kind, off) ↦ elim (Bool-cases (is_jump name)) [
      | inl j ↦
          let not_push = no_jump name kind j in
          rw (off, j)
            (jump_checked-Ends (validate_jump_arg inp p doc e) name e size p wf
              (sized.no_push not_push) not_push)
      | inr j ↦
          rw (off, j)
            (after_resolved-Ends is inp.fork name p _ known wf
              λ o found. no_arg_op-Ends name e o imms size p wf found kind)
    ]
  ]

  pub expand_opcode-Ends :
      (name : String) (doc : Document) (e : Option Expr) (imms : List ℕ) (size : ℕ) (p : Prog)
      → IsWf is p
      → IsSized is (inp.to_upper name) size
      → Ends is p (expand_opcode inp name doc e imms size p)
  unfolding expand_opcode
  expand_opcode-Ends name = expand_named-Ends (inp.to_upper name)
