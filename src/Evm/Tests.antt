-- ===== src/Evm/Tests.antt =====
-- Instructions, immediate bytes and forks at concrete values.
use geas.Prelude.{
  ℕ, ◌+◌, delete, ◌≤◌, ◌<◌, ◌≡◌, ◌⊎◌, ◌↔◌, refl, inl, true, false, some, List, [], ◌∷◌, String,
  string_eq, nat_eq, arith, insert, empty, Map,
}
use geas.Evm.Op.{Op, op}
use geas.Evm.Defs.{contains, InstructionSetDef, InstructionSet}
use geas.Evm.Immediate.{
  byte, kind, encode_immediate_single, decode_immediate_single, encode_immediate_pair,
  decode_immediate_pair, validate_immediate, encode_immediate_args, decode_immediate,
}
use geas.Evm.Immediate.RoundTrip.{decode-encode_single, decode-encode_pair}
use geas.Evm.Immediate.Validation.{validate-encode_immediate_args, validate_rejects_encoding}
use geas.Evm.Forks.{fork_reg, cancun}
use geas.Evm.InstructionSet.{
  Registry, ok, resolve_defs, empty_set, find_instruction_set, find_def, registered, canonical_name,
  lineage, apply_defs, add_ops, remove_ops, add_op, remove_op, lineage_loop,
}
use geas.Evm.InstructionSet.Consistent.{IsConsistent, resolve_defs-IsConsistent}
use geas.Evm.InstructionSet.Lookup.{find_instruction_set-IsConsistent}

abbrev dupn_op : Op
dupn_op = record (op "DUPN" 0xe6 [] []) { has_immediate = true }

abbrev exchange_op : Op
exchange_op = record (op "EXCHANGE" 0xe8 [] []) { has_immediate = true }

decode-encode_single_example :
    (17 ≤ 108)
    × (108 ≤ 235)
    × ((128 ≤ 90) ⊎ ((128 ≤ 128) × (128 < 256)))
    × (decode_immediate_single 128 ≡ 108)
unfolding encode_immediate_single
decode-encode_single_example = decode-encode_single 108 128 refl

decode-encode_pair_example :
    (1 ≤ 6)
    × (6 < 7)
    × (6 + 7 ≤ 30)
    × ((134 ≤ 79) ⊎ ((128 ≤ 134) × (134 < 256)))
    × (decode_immediate_pair 134 ≡ (6, 7))
unfolding encode_immediate_pair
decode-encode_pair_example = decode-encode_pair 6 7 134 refl

validate-encode_immediate_args_example :
    (validate_immediate dupn_op 100 ≡ true)
    ↔ ((args : List ℕ) × (encode_immediate_args dupn_op args ≡ byte 100))
unfolding kind
validate-encode_immediate_args_example =
    validate-encode_immediate_args dupn_op 100 (ground arith) (inl refl)

-- EXCHANGE[6, 7] is 0x86.
validate_rejects_encoding_example :
    (encode_immediate_args exchange_op (decode_immediate exchange_op 0x86) ≡ byte 0x86)
    × (validate_immediate exchange_op 0x86 ≡ false)
unfolding kind
validate_rejects_encoding_example =
    validate_rejects_encoding exchange_op 0x86 refl (ground arith) (ground arith)

find_instruction_set-cancun :
    find_instruction_set (λ name. name) fork_reg "cancun"
    ≡ some (resolve_defs fork_reg cancun (empty_set "cancun"))
unfolding find_instruction_set find_def registered fork_reg canonical_name cancun
find_instruction_set-cancun = refl

find_instruction_set-IsConsistent_example :
    (is : InstructionSet) × (resolve_defs fork_reg cancun (empty_set "cancun") ≡ ok is)
    × IsConsistent is
find_instruction_set-IsConsistent_example =
    find_instruction_set-IsConsistent (λ name. name) "cancun"
      (resolve_defs fork_reg cancun (empty_set "cancun")) find_instruction_set-cancun

abbrev add_instr : Op
add_instr = op "ADD" 0x1 ("x" ∷ "y" ∷ []) ("x+y" ∷ [])

abbrev mul_instr : Op
mul_instr = op "MUL" 0x2 ("x" ∷ "y" ∷ []) ("x*y" ∷ [])

abbrev two_ops : Map String Op
two_ops = insert "ADD" add_instr (insert "MUL" mul_instr empty)

abbrev first_fork : InstructionSetDef
first_fork = record { names = "first" ∷ []; parent = ""; added = some add_instr ∷ []; removed = [] }

abbrev second_fork : InstructionSetDef
second_fork = record {
  names = "second" ∷ [];
  parent = "first";
  added = some mul_instr ∷ [];
  removed = some add_instr ∷ [];
}

abbrev two_forks : Registry
two_forks = ("first", first_fork) ∷ ("second", second_fork) ∷ []

abbrev second_set : InstructionSet
second_set = record {
  name = "second";
  by_name = insert "MUL" mul_instr (delete "ADD" (insert "ADD" add_instr empty));
  by_code = insert 0x2 mul_instr (delete 0x1 (insert 0x1 add_instr empty));
  op_removed = delete "MUL" (insert "ADD" "second" (delete "ADD" empty));
}

resolve_defs-second : resolve_defs two_forks second_fork (empty_set "second") ≡ ok second_set
unfolding resolve_defs lineage lineage_loop registered canonical_name apply_defs add_ops remove_ops
    add_op remove_op contains
resolve_defs-second = refl

resolve_defs-IsConsistent_example : IsConsistent second_set
resolve_defs-IsConsistent_example =
    resolve_defs-IsConsistent two_ops two_forks second_fork "second" second_set
      (((refl, tt), tt), (((refl, tt), (refl, tt)), tt)) ((refl, tt), (refl, tt))
      resolve_defs-second
