-- ===== src/Disasm/Reassemble/Items.antt =====
-- One item of the disassembler, as an instruction of the assembler.
use Prim.Native.String.{◌++◌ as append}
use geas.Prelude.{
  ℕ, ◌+◌, ◌-◌, ◌<◌, ◌≡◌, refl, sym, ◌∙◌, true, false, Option, none, some, List, [], ◌∷◌, arith, inl,
  inr, length, take, All, Option-cases, Bool-cases, length-take, nat_eq, string_eq, ◌==◌, ltb,
  String,
}
use mathlib.Core.Path.{subst}
use geas.Prelude.Text.{with_0x, hex_bytes}
use geas.Evm.Op.{Op}
use geas.Evm.Defs.{InstructionSet}
use geas.Evm.Immediate.{Encoded, byte, refused, kind, encode_immediate_args, validate_immediate}
use geas.Evm.InstructionSet.{op_by_code, op_by_name, supports_push0}
use geas.Evm.InstructionSet.Consistent.{IsConsistent}
use geas.Evm.Effect.{decimal}
use geas.Lzint.{bytes_nat, nat_bytes, leading_zeros}
use geas.Lzint.Bytes.{IsByte}
use geas.Lzint.RoundTrip.{zeros_and_digits}
use geas.Lzint.Literal.{Literal, number, parse_number_literal}
use geas.Lzint.Literal.RoundTrip.{parse_number_literal_int}
use geas.Asm.Program.{Instruction, is_bytes, is_push}
use geas.Asm.Arguments.{
  Evaluator, Evaluated, value, failure, pre_arg, pre_evaluated_push, initial_size,
}
use geas.Asm.Output.{resolve_push}
use geas.Asm.Output.Encoding.{Encodes, push, plain, immediate}
use geas.Asm.Backend.Prepared.{IsQuiet}
use geas.Disasm.Reassemble.Sizes.{
  encode-decode_kind, push_size-name, literal_size, All-take, assigned_literal,
}
use geas.Disasm
use geas.Disasm.{
  Item, invalid, truncated, bad_immediate, decode_item, decode_push, decode_with_immediate,
  decode_op,
}

-- The names of the table: PUSH with a number of bytes for the pushes, whose opcodes start at 0x5f,
-- and neither a directive nor another name that starts with PUSH for the rest.
pub record IsNamed (o : Op) : Type 0 where
  pub not_raw : is_bytes o.name ≡ false
  pub not_empty : (o.name == "") ≡ false
  pub not_variable : (o.name == "PUSH") ≡ false
  pub same_push : is_push o.name ≡ o.push
  pub sized :
      o.push ≡ true
      → (n : ℕ) × (n < 33) × (o.name ≡ append "PUSH" (decimal n)) × (o.code ≡ 0x5f + n)

abbrev pub IsValid : Item → Type 0
IsValid (invalid b) = ⊥
IsValid (Disasm.plain o) = Unit
IsValid (Disasm.push o bs) = Unit
IsValid (truncated bs) = ⊥
IsValid (bad_immediate o b) = ⊥
IsValid (Disasm.immediate o args) = Unit

abbrev instruction : String → Option String → Option ℕ → List ℕ → Instruction String
instruction name arg explicit data_bytes = record {
  op = name;
  arg = arg;
  explicit_size = explicit;
  pc_label = none;
  pc = 0;
  data_size = length data_bytes;
  data_bytes = data_bytes;
  arg_no_labels = false;
}

abbrev printed_immediate : Op → Encoded → List (Instruction String)
printed_immediate o (byte imm) = instruction o.name none none (imm ∷ []) ∷ []
printed_immediate o (refused e) = []

-- What the parser and the expansion make of the text of an item, with the name in capitals: the
-- argument of a PUSH is the literal as it is printed, and its explicit size the number in its name,
-- which for the names of the table is what the opcode says. Other items have none.
abbrev pub printed : Item → List (Instruction String)
printed (Disasm.plain o) = instruction o.name none none [] ∷ []
printed (Disasm.push o bs) =
    instruction o.name (some (with_0x (hex_bytes bs))) (some (o.code - 0x5f)) [] ∷ []
printed (Disasm.immediate o args) = printed_immediate o (encode_immediate_args o args)
printed _ = []

abbrev literal_value : Literal → Evaluated
literal_value (number v) = value v
literal_value _ = failure 0

-- The argument is a literal.
abbrev pub literal_eval : Evaluator String
literal_eval pcs text = literal_value (parse_number_literal text)

-- The instruction that an item is printed as is evaluated without an error before the layout, and
-- encodes the opcode and the bytes that the item takes.
abbrev pub Reads : InstructionSet → ℕ → List ℕ → Item × ℕ → Type 0
Reads is b rest (item, n) =
    IsValid item
    → (i : Instruction String) × (j : Instruction String) × (printed item ≡ i ∷ [])
      × (pre_arg (supports_push0 is) literal_eval i i.arg ≡ (j, []))
      × IsQuiet is j
      × (j.pc_label ≡ none)
      × Encodes is j (b ∷ take n rest)

module _ (is : InstructionSet) (o : Op) (b : ℕ) (same : o.code ≡ b)
    (named : is.by_name o.name ≡ some o) (facts : IsNamed o) where
  resolved : (n : ℕ) → resolve_push is o.name n ≡ some o
  unfolding resolve_push op_by_name
  resolved n = rw facts.not_variable named

  -- The literal of at least one byte, as an argument.
  push-Reads :
      (bs : List ℕ) (n : ℕ)
      → All IsByte bs
      → length bs ≡ n
      → 0 < n
      → n < 33
      → o.code ≡ 0x5f + n
      → o.push ≡ true
      → (j : Instruction String) × (pre_arg
            (supports_push0 is)
            literal_eval
            (instruction o.name (some (with_0x (hex_bytes bs))) (some (o.code - 0x5f)) [])
            (some (with_0x (hex_bytes bs)))
          ≡ (j, []))
        × IsQuiet is j
        × (j.pc_label ≡ none)
        × Encodes is j (b ∷ bs)
  unfolding pre_arg pre_evaluated_push initial_size
  push-Reads [] n h len positive less code is_a_push = absurd (omega arith)
  push-Reads (x ∷ bs) n h len positive less code is_a_push =
      let all = x ∷ bs in
      let text = with_0x (hex_bytes all) in
      let (v, parsed, number_of) = parse_number_literal_int x bs h in
      let size : o.code - 0x5f ≡ n = omega arith in
      let i' : Instruction String = record (instruction o.name (some text) (some n) []) {
        data_size = n;
        arg_no_labels = true;
      } in
      let j : Instruction String = record i' { data_bytes = nat_bytes (bytes_nat 0 all) } in
      let stored = assigned_literal (supports_push0 is) i' v all n h less len number_of refl refl in
      let pushes : is_push o.name ≡ true = facts.same_push ∙ is_a_push in
      let pad = literal_size all h in
      (
        j,
        rw (facts.not_raw, pushes, parsed, size) stored,
        inl refl,
        refl,
        subst (Encodes is j) (rw (zeros_and_digits all h, same) refl) (
            push o (leading_zeros all) facts.not_raw pushes facts.not_empty (resolved n)
              (omega arith) (pad ∙ len)),
      )

  -- An instruction without operand.
  plain-Reads : o.push ≡ false → Encodes is (instruction o.name none none []) (b ∷ [])
  unfolding op_by_name
  plain-Reads not_push =
      subst (λ c. Encodes is (instruction o.name none none []) (c ∷ [])) same
        (plain o facts.not_raw (facts.same_push ∙ not_push) facts.not_empty named refl refl)

  push0-Reads : o.push ≡ true → Encodes is (instruction o.name none none []) (b ∷ [])
  push0-Reads is_a_push =
      subst (λ c. Encodes is (instruction o.name none none []) (c ∷ [])) same
        (push o 0 facts.not_raw (facts.same_push ∙ is_a_push) facts.not_empty (resolved 0)
          (omega arith) refl)

  without_argument :
      (data_bytes : List ℕ)
      → pre_arg (supports_push0 is) literal_eval (instruction o.name none none data_bytes) none
        ≡ (instruction o.name none none data_bytes, [])
  unfolding pre_arg
  without_argument data_bytes = rw facts.not_raw refl

  decode_push-Reads :
      (rest : List ℕ) → All IsByte rest → o.push ≡ true → Reads is b rest (decode_push o b rest)
  unfolding decode_push
  decode_push-Reads rest h is_a_push =
      let (n, less, name, code) = facts.sized is_a_push in
      let size = push_size-name o n less name in
      rw size (elim (Bool-cases (n == 0)) [
        | inl e ↦ rw e λ valid. (
          _,
          _,
          refl,
          without_argument [],
          inr (facts.not_raw, inr refl),
          refl,
          push0-Reads is_a_push,
        )
        | inr e ↦ elim (Bool-cases (ltb (length rest) n)) [
          | inl f ↦ rw (e, f) λ valid. absurd valid
          | inr f ↦
              let full : length (take n rest) ≡ n = ground (arith, length-take n rest) in
              let positive : 0 < n = ground arith in
              let (j, pre, quiet, label, enc) =
                push-Reads (take n rest) n (All-take n rest h) full positive less code is_a_push in
              rw (e, f)
                λ valid. (
                  _,
                  j,
                  refl,
                  pre,
                  quiet,
                  label,
                  subst (λ m. Encodes is j (b ∷ take m rest)) (sym full) enc,
                )
        ]
      ])

  decode_with_immediate-Reads :
      (rest : List ℕ)
      → All IsByte rest
      → o.push ≡ false
      → o.has_immediate ≡ true
      → Reads is b rest (decode_with_immediate o b rest)
  unfolding decode_with_immediate op_by_name
  decode_with_immediate-Reads [] h not_push has = λ valid. absurd valid
  decode_with_immediate-Reads (imm ∷ rest) h not_push has =
      elim (Bool-cases (validate_immediate o imm)) [
        | inr v ↦ rw v λ valid. absurd valid
        | inl v ↦
            let again = encode-decode_kind (kind o) o imm refl h.0 v in
            rw (v, again)
              λ valid. (
                _,
                _,
                refl,
                without_argument (imm ∷ []),
                inr (facts.not_raw, inr refl),
                refl,
                subst (λ c. Encodes is (instruction o.name none none (imm ∷ [])) (c ∷ imm ∷ []))
                    same
                    (immediate o imm facts.not_raw (facts.same_push ∙ not_push) facts.not_empty
                      named has refl refl),
              )
      ]

  plain_item : o.push ≡ false → (rest : List ℕ) → Reads is b rest (Disasm.plain o, 0)
  plain_item e rest valid =
      (_, _, refl, without_argument [], inr (facts.not_raw, inr refl), refl, plain-Reads e)

  decode_op-Reads : (rest : List ℕ) → All IsByte rest → Reads is b rest (decode_op (some o) b rest)
  unfolding decode_op
  decode_op-Reads rest h = elim (Bool-cases o.push) [
    | inl e ↦ simp e (decode_push-Reads rest h e)
    | inr e ↦ elim (Bool-cases o.has_immediate) [
      | inl f ↦ simp (e, f) (decode_with_immediate-Reads rest h e f)
      | inr f ↦ simp (e, f) (plain_item e rest)
    ]
  ]

pub decode_item-Reads :
    (is : InstructionSet) (b : ℕ) (rest : List ℕ)
    → IsConsistent is
    → ((c : ℕ) (o : Op) → is.by_code c ≡ some o → IsNamed o)
    → All IsByte rest
    → Reads is b rest (decode_item is b rest)
unfolding decode_item op_by_code
decode_item-Reads is b rest c facts h = elim (Option-cases (is.by_code b)) [
  | inl e ↦ rw e (unfold decode_op in λ valid. absurd valid)
  | inr (o, e) ↦
      let (same, named) = c.code_name b o e in
      rw e (decode_op-Reads is o b same named (facts b o e) rest h)
]
