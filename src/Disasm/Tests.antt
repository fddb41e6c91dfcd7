-- ===== src/Disasm/Tests.antt =====
-- Small bytecodes, disassembled.
use Prim.Native.String.{◌++◌ as append}
use geas.Evm.Oplist.{oplist}
use geas.Asm.Program.{is_bytes, is_push}
use geas.Prelude.{
  List, Bool, not, ◌&&◌, if◌then◌else◌, leb, ltb, ◌-◌, ◌==◌, ℕ, ◌≡◌, refl, [], ◌∷◌, String, some,
  insert, empty, false, true, arith, string_eq, nat_eq, eq_iff, nat_beq_iff, nat_beq, Bool-cases,
  inl, inr,
}
use mathlib.Core.Path.{subst}
use geas.Evm.Op.{Op, op}
use geas.Evm.Defs.{InstructionSet}
use geas.Evm.InstructionSet.Consistent.{IsConsistent}
use geas.Lzint.{Value, err, odd_hex_bytes, bytes}
use geas.Lzint.Literal.{number, parse_number_literal}
use geas.Prelude.Text.{with_0x, hex_bytes, hex_char, hex_number}
use geas.Evm.Immediate.{kind, validate_immediate, decode_immediate, decode_immediate_single}
use geas.Evm.Effect.{push_size, decimal}
use geas.Evm.InstructionSet.{op_by_code}
use geas.Disasm.{Disassembler, decode_item, disassemble, decode_all, print_invalid}
use geas.Disasm.Reassemble.{printed_all, compile_expanded-decode_all}
use geas.Disasm.Reassemble.Items.{IsNamed, literal_eval}
use geas.Asm.Output.{Output, emitted}
use geas.Asm.Backend.{written, compile_expanded}
use geas.Disasm.Invalid.{print_invalid_digit}

abbrev push2 : Op
push2 = record (op "PUSH2" 0x61 [] ("val" ∷ [])) { push = true }

abbrev dupn_op : Op
dupn_op = record (op "DUPN" 0xe6 [] []) { has_immediate = true }

abbrev push_set : InstructionSet
push_set = record {
  name = "test";
  by_name = insert "PUSH2" push2 (insert "DUPN" dupn_op empty);
  by_code = insert 0x61 push2 (insert 0xe6 dupn_op empty);
  op_removed = empty;
}

code_name :
    (c : ℕ) (o : Op)
    → push_set.by_code c ≡ some o
    → (o.code ≡ c) × (push_set.by_name o.name ≡ some o)
code_name c o h = elim (Bool-cases (nat_beq 0x61 c)) [
  | inl e ↦
      let same : push2 ≡ o = ground arith in
      subst (λ p. (p.code ≡ c) × (push_set.by_name p.name ≡ some p)) same
        ((nat_beq_iff 0x61 c).0 e, refl)
  | inr e ↦ elim (Bool-cases (nat_beq 0xe6 c)) [
    | inl f ↦
        let same : dupn_op ≡ o = ground arith in
        subst (λ p. (p.code ≡ c) × (push_set.by_name p.name ≡ some p)) same
          ((nat_beq_iff 0xe6 c).0 f, refl)
    | inr f ↦ absurd (ground arith)
  ]
]

push_set-IsConsistent : IsConsistent push_set
push_set-IsConsistent = record {
  name_code = λ n o h. ground (arith, eq_iff "PUSH2" n, eq_iff "DUPN" n);
  code_name = code_name;
}

push2-IsNamed : IsNamed push2
unfolding decimal
push2-IsNamed = record {
  not_raw = refl;
  not_empty = refl;
  not_variable = refl;
  same_push = refl;
  sized = λ e. (2, omega arith, refl, refl);
}

dupn_op-IsNamed : IsNamed dupn_op
dupn_op-IsNamed = record {
  not_raw = refl;
  not_empty = refl;
  not_variable = refl;
  same_push = refl;
  sized = λ e. absurd (cc e);
}

-- The table has these names.
table_name : Op → Bool
unfolding decimal
table_name o =
    not (is_bytes o.name)
    && not (o.name == "")
    && not (o.name == "PUSH")
    && (if o.push
        then is_push o.name
          && (leb 0x5f o.code && ltb o.code 0x80)
          && (o.name == append "PUSH" (decimal (o.code - 0x5f)))
        else not (is_push o.name))

table_names : List Op → Bool
unfolding table_name
table_names [] = true
table_names (o ∷ ops) = table_name o && table_names ops

table_names-oplist : table_names oplist ≡ true
unfolding table_names decimal oplist
table_names-oplist = refl

push_set-IsNamed : (c : ℕ) (o : Op) → push_set.by_code c ≡ some o → IsNamed o
push_set-IsNamed c o h = elim (Bool-cases (nat_beq 0x61 c)) [
  | inl e ↦ let same : push2 ≡ o = ground arith in subst IsNamed same push2-IsNamed
  | inr e ↦ elim (Bool-cases (nat_beq 0xe6 c)) [
    | inl f ↦ let same : dupn_op ≡ o = ground arith in subst IsNamed same dupn_op-IsNamed
    | inr f ↦ absurd (ground arith)
  ]
]

-- PUSH2 0x0001 and DUPN[20]
compile_expanded-decode_all_example :
    (out : Output) × (compile_expanded push_set literal_eval
        (printed_all (decode_all push_set (0x61 ∷ 0 ∷ 1 ∷ 0xe6 ∷ 3 ∷ [])))
      ≡ written (emitted out))
    × (out.bytes ≡ 0x61 ∷ 0 ∷ 1 ∷ 0xe6 ∷ 3 ∷ [])
    × (out.unknown ≡ [])
unfolding decode_all decode_item op_by_code push_size validate_immediate kind
compile_expanded-decode_all_example =
    compile_expanded-decode_all push_set (0x61 ∷ 0 ∷ 1 ∷ 0xe6 ∷ 3 ∷ []) push_set-IsConsistent
      push_set-IsNamed (omega arith) (tt, (tt, tt))

print_invalid_digit_example :
    (literal : String) × (v : Value) × (print_invalid 0x0c ≡ append "#bytes " (append literal "\n"))
    × (parse_number_literal literal ≡ number v)
    × (bytes v ≡ err odd_hex_bytes)
print_invalid_digit_example = print_invalid_digit 0x0c (omega arith)

abbrev plain_style : Disassembler
plain_style = record {
  evm = push_set;
  uppercase = true;
  show_pc = false;
  pc_labels = false;
  no_blanks = true;
}

disassemble_text :
    disassemble (λ s. s) plain_style (0x61 ∷ 1 ∷ 2 ∷ 0x0c ∷ 0xe6 ∷ 3 ∷ [])
    ≡ "PUSH2 0x0102\n#bytes 0xc\nDUPN[20]\n"
unfolding disassemble decode_item op_by_code push_size with_0x hex_bytes hex_char hex_number
    validate_immediate kind decode_immediate decimal decode_immediate_single
disassemble_text = refl
