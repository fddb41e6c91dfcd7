-- ===== src/Asm/Expand/Opcode.antt =====
-- asm/compiler_expand.go: the expansion of an opcode statement.

pub mod Usable
pub mod Keeps
pub mod Jump
use geas.Prelude.{
  ℕ, ◌-◌, ltb, not, ◌&&◌, Option, none, some, List, [], ◌∷◌, String, ◌==◌, string_eq, nat_eq,
  if◌then◌else◌, length,
}
use geas.Ast.{Document, Expr, label_ref, LabelDef}
use geas.Loader.{lookup_label}
use geas.Evm.Op.{Op}
use geas.Evm.Immediate.{Encoded, byte, refused, encode_immediate_args}
use geas.Asm.Program.{is_push}
use geas.Asm.Expand.Defs.{
  Input, ExpandError, push_without_argument, pushzero_with_argument, unexpected_argument,
  missing_immediate, unexpected_immediate, immediate_refused, jump_needs_literal_label,
  jump_to_dotted_label, jump_to_undefined_label, PendingLabel, Prog, Outcome, ok, refuse,
  add_instruction, new_instruction,
}
use geas.Asm.Expand.Resolve.{resolve_op, after_resolved, is_jump}

unfoldable pub explicit_push_size : ℕ → Option ℕ
explicit_push_size size = if ltb 0 size then some (size - 1) else none

module _ (inp : Input) where
  definition_of : Option PendingLabel → Document → String → Option LabelDef
  unfolding lookup_label
  definition_of (some l) doc name = some l.def
  definition_of none doc name = (lookup_label inp.is_upper inp.program name doc).0

  unfoldable pub find_label : Prog → String → Document → Option LabelDef
  unfolding definition_of
  find_label p name doc = definition_of (p.global_labels name) doc name

  jump_target : String → Option LabelDef → Option ExpandError
  jump_target ident none = some (jump_to_undefined_label ident)
  jump_target ident (some li) = if li.dotted then some (jump_to_dotted_label ident) else none

  jump_expr : Prog → Document → Expr → Option ExpandError
  unfolding jump_target find_label
  jump_expr p doc (label_ref ident dotted) =
      if dotted
      then some (jump_to_dotted_label ident)
      else jump_target ident (find_label p ident doc)
  jump_expr p doc _ = some jump_needs_literal_label

  unfoldable pub validate_jump_arg : Prog → Document → Option Expr → Option ExpandError
  unfolding jump_expr
  validate_jump_arg p doc none = none
  validate_jump_arg p doc (some e) = jump_expr p doc e

  -- A PUSH other than PUSH0, once its name is resolved.
  push_operand : String → Option Expr → ℕ → Prog → Outcome
  unfolding add_instruction explicit_push_size
  push_operand name none size p = refuse push_without_argument p
  push_operand name (some e) size p =
      ok (add_instruction (new_instruction p name (some e) (explicit_push_size size) none) p)

  expand_push : String → Option Expr → ℕ → Prog → Outcome
  unfolding push_operand resolve_op after_resolved
  expand_push name operand size p =
      if name == "PUSH"
      then push_operand name operand size p
      else after_resolved (resolve_op inp.fork name) p λ o. push_operand name operand size p

  -- The PUSH of the destination in front of a JUMP.
  push_dest : Option Expr → ℕ → Prog → Prog
  unfolding add_instruction explicit_push_size
  push_dest none size p = p
  push_dest (some e) size p =
      add_instruction (new_instruction p "PUSH" (some e) (explicit_push_size size) none) p

  add_jump : String → Option Expr → ℕ → Prog → Outcome
  unfolding push_dest add_instruction explicit_push_size
  add_jump name operand size p =
      let q = push_dest operand size p in
      ok (add_instruction (new_instruction q name operand (explicit_push_size size) none) q)

  jump_checked : Option ExpandError → String → Option Expr → ℕ → Prog → Outcome
  unfolding add_jump resolve_op after_resolved
  jump_checked (some e) name operand size p = refuse e p
  jump_checked none name operand size p =
      after_resolved (resolve_op inp.fork name) p λ o. add_jump name operand size p

  expand_jump : String → Document → Option Expr → ℕ → Prog → Outcome
  unfolding jump_checked validate_jump_arg
  expand_jump name doc operand size p =
      jump_checked (validate_jump_arg p doc operand) name operand size p

  with_immediate : String → Op → Encoded → ℕ → Prog → Outcome
  unfolding add_instruction explicit_push_size
  with_immediate name o (byte imm) size p = ok (
      add_instruction
        (record (new_instruction p name none (explicit_push_size size) none) {
          data_bytes = imm ∷ [];
          data_size = 1;
        })
        p)
  with_immediate name o (refused e) size p = refuse (immediate_refused o.name e) p

  plain_op : String → Op → List ℕ → ℕ → Prog → Outcome
  unfolding with_immediate encode_immediate_args add_instruction explicit_push_size
  plain_op name o imms size p =
      if o.has_immediate
      then (if length imms == 0
          then refuse missing_immediate p
          else with_immediate name o (encode_immediate_args o imms) size p)
      else (if ltb 0 (length imms)
          then refuse unexpected_immediate p
          else ok (add_instruction (new_instruction p name none (explicit_push_size size) none) p))

  no_arg_op : String → Option Expr → Op → List ℕ → ℕ → Prog → Outcome
  unfolding plain_op
  no_arg_op name (some e) o imms size p =
      refuse (if name == "PUSH0" then pushzero_with_argument else unexpected_argument) p
  no_arg_op name none o imms size p = plain_op name o imms size p

  -- With the name in capitals.
  expand_named : String → Document → Option Expr → List ℕ → ℕ → Prog → Outcome
  unfolding expand_push expand_jump no_arg_op resolve_op after_resolved is_jump
  expand_named name doc operand imms size p =
      if is_push name && not (name == "PUSH0")
      then expand_push name operand size p
      else (if is_jump name
          then expand_jump name doc operand size p
          else after_resolved (resolve_op inp.fork name) p
              λ o. no_arg_op name operand o imms size p)

  unfoldable pub expand_opcode : String → Document → Option Expr → List ℕ → ℕ → Prog → Outcome
  unfolding expand_named
  expand_opcode name doc operand imms size p =
      expand_named (inp.to_upper name) doc operand imms size p
