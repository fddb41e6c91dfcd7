-- ===== src/Asm/Expand.antt =====
-- asm/compiler_expand.go: the statements of a document are expanded into the output program. The
-- expansion of the documents of macros and includes is on fuel. The argument `body` of a function is
-- the expansion of another document.
pub mod Defs
pub mod Invariant
pub mod Sections
pub mod Labels
pub mod Steps
pub mod Total
pub mod Finished
pub mod Resolve
pub mod Opcode
use geas.Prelude.{
  ℕ, zero, suc, ◌+◌, ◌-◌, ltb, Bool, true, false, not, ◌&&◌, Option, none, some, List, [], ◌∷◌,
  ◌++◌, map, String, ◌==◌, string_eq, nat_eq, if◌then◌else◌, length, is_some,
}
use geas.Lzint.{from_bytes}
use geas.Ast.{
  Document, info, Expr, literal, label_ref, variable, macro_call, binary, unary, group, Exprs,
  no_args, arg, args_list, LabelDef, InstructionMacroDef, is_global,
}
use geas.Ast.Statement.{
  Statement, StatementKind, opcode, label_def, pc_label, instr_macro_call, include, assemble,
  pragma, bytes, comment_only, expr_macro_def, instr_macro_def,
}
use geas.Loader.{lookup_label, lookup_instr_macro}
use geas.Evm.Op.{Op}
use geas.Evm.Defs.{InstructionSet, InstructionSetDef, opm}
use geas.Evm.Immediate.{Encoded, byte, refused, encode_immediate_args}
use geas.Evm.InstructionSet.{op_by_name, fork_where_op_removed, canonical_name}
use geas.Evm.Forks.{fork_reg}
use geas.Asm.Program.{Instruction, is_push}
use geas.Asm.Evaluator.Defs.{Section, section, MacroArgs, macro_args, no_macro_args}
use geas.Asm.Evaluator.Builtins.{member}
use geas.Asm.Analysis.{check_duplicate_params}
use Defs.{
  Input, ExpandError, label_already_defined, push_without_argument, pushzero_with_argument,
  unexpected_argument, missing_immediate, unexpected_immediate, immediate_refused, unknown_op,
  removed_op, added_op, jump_needs_literal_label, jump_to_dotted_label, jump_to_undefined_label,
  undefined_instr_macro, recursive_call, invalid_argument_count, duplicate_param, Message, error,
  assemble_deprecated, Term, PendingLabel, Frame, Prog, Outcome, finished, panicked, out_of_fuel,
  ok, refuse, new_compiler_prog, add_message, next_number, push_section, pop_section,
  add_instruction, add_label, enter_macro, exit_macro, new_instruction, empty_instruction,
  clone_body, finish_expansion,
}
use Opcode.{expand_opcode}

unfoldable pub after : Outcome → (Prog → Outcome) → Outcome
after (finished none p) next = next p
after (finished (some e) p) next = refuse e p
after panicked next = panicked
after out_of_fuel next = out_of_fuel

unfoldable pub and_then : Outcome → (Prog → Outcome) → Outcome
unfolding add_message
and_then (finished none p) next = next p
and_then (finished (some e) p) next = next (add_message (error e) p)
and_then panicked next = panicked
and_then out_of_fuel next = out_of_fuel

-- defer prog.popSection()
unfoldable pub leave_section : Outcome → Outcome
unfolding pop_section
leave_section (finished e p) = pop_section e p
leave_section panicked = panicked
leave_section out_of_fuel = out_of_fuel

-- defer c.exitMacro(def)
unfoldable pub in_macro : InstructionMacroDef → Outcome → Outcome
unfolding exit_macro
in_macro def (finished e p) = finished e (exit_macro def p)
in_macro def panicked = panicked
in_macro def out_of_fuel = out_of_fuel

args_of : Section → MacroArgs
args_of (section doc args) = args

-- ast.MakeString
unfoldable pub make_string : (String → List ℕ) → String → Expr
make_string bytes_of text = literal text (from_bytes (bytes_of text)) true

-- An error of the list, not of the statement.
unfoldable pub report : List String → Prog → Prog
unfolding add_message
report [] p = p
report (param ∷ params) p = report params (add_message (error (duplicate_param param)) p)

unfoldable pub check_params : StatementKind → Prog → Prog
unfolding report check_duplicate_params
check_params (expr_macro_def def) p = report (check_duplicate_params def.params) p
check_params (instr_macro_def def) p = report (check_duplicate_params def.params) p
check_params _ p = p

module _ (inp : Input) where
  -- The definition of a label that is global and there already.
  label_at : LabelDef → Document → Option PendingLabel → Prog → Outcome
  unfolding add_label
  label_at def doc (some first) p = refuse (label_already_defined first.def def) p
  label_at def doc none p = add_label inp.is_upper def doc p

  jumpdest : LabelDef → Prog → Outcome
  unfolding add_instruction
  jumpdest def p =
      if def.dotted
      then ok p
      else ok (add_instruction (new_instruction p "JUMPDEST" none none none) p)

  unfoldable pub expand_label : LabelDef → Document → Prog → Outcome
  unfolding label_at jumpdest is_global after
  expand_label def doc p =
      after
        (label_at def doc
          (if is_global inp.is_upper def.ident then p.global_labels def.ident else none) p)
        λ q. jumpdest def q

  unfoldable pub expand_pc_label : ℕ → Prog → Outcome
  unfolding add_instruction
  expand_pc_label pc p = ok (add_instruction (new_instruction p "" none none (some pc)) p)

  -- #assemble is turned into #bytes assemble(...).
  unfoldable pub expand_assemble : String → Prog → Outcome
  unfolding add_message add_instruction make_string
  expand_assemble file p =
      let call = macro_call p.fresh "assemble" true (arg (make_string inp.bytes_of file) no_args) in
      let q = next_number (add_message assemble_deprecated p) in
      ok (add_instruction (new_instruction q "#bytes" (some call) none none) q)

  add_bytes : Expr → Prog → Outcome
  unfolding add_instruction
  add_bytes e p = ok (add_instruction (new_instruction p "#bytes" (some e) none none) p)

  unfoldable pub expand_bytes : Expr → Option LabelDef → Document → Prog → Outcome
  unfolding expand_label add_bytes after
  expand_bytes e none doc p = add_bytes e p
  expand_bytes e (some l) doc p = after (expand_label l doc p) (add_bytes e)

  module _ (body : Document → List Statement → Prog → Outcome) where
    in_section : Document → MacroArgs → List Statement → Prog → Outcome
    unfolding push_section leave_section
    in_section doc args sts p = leave_section (body doc sts (push_section doc args p))

    expand_body : InstructionMacroDef → List Expr → Prog → Outcome
    unfolding in_section clone_body
    expand_body def args p =
        in_section (clone_body def p.fresh) (macro_args def.params args p.cur.section)
          (inp.statements (info def.body).id) (next_number p)

    call_entered : String → List Expr → InstructionMacroDef → Prog → Outcome
    unfolding expand_body
    call_entered name args def p =
        if length args == length def.params
        then expand_body def args p
        else refuse (invalid_argument_count name (length def.params)) p

    call_found : String → List Expr → Option InstructionMacroDef → Prog → Outcome
    unfolding call_entered in_macro enter_macro member
    call_found name args none p = refuse (undefined_instr_macro name) p
    call_found name args (some def) p =
        if member def.id p.macro_stack
        then refuse (recursive_call name) p
        else in_macro def (call_entered name args def (enter_macro def p))

    unfoldable pub expand_macro_call : String → Exprs → Document → Prog → Outcome
    unfolding call_found lookup_instr_macro
    expand_macro_call name args doc p =
        call_found name (args_list args) (lookup_instr_macro inp.is_upper inp.program name doc) p

    include_found : Option Document → Prog → Outcome
    unfolding in_section args_of
    include_found none p = ok p
    include_found (some doc) p =
        in_section doc (args_of p.cur.section) (inp.statements (info doc).id) p

    unfoldable pub expand_include : ℕ → Prog → Outcome
    unfolding include_found
    expand_include number p = include_found (inp.include_doc number) p

    -- statementFromAST and the expand method; nil is the statement that does nothing.
    unfoldable pub expand_kind : StatementKind → Document → Prog → Outcome
    unfolding expand_opcode expand_label expand_pc_label expand_macro_call expand_include
        expand_assemble expand_bytes
    expand_kind (opcode name operand imms size) doc p =
        expand_opcode inp name doc operand imms size p
    expand_kind (label_def def) doc p = expand_label def doc p
    expand_kind (pc_label pc text) doc p = expand_pc_label pc p
    expand_kind (instr_macro_call name args) doc p = expand_macro_call name args doc p
    expand_kind (include number file) doc p = expand_include number p
    expand_kind (assemble file) doc p = expand_assemble file p
    expand_kind (bytes e label) doc p = expand_bytes e label doc p
    expand_kind (pragma option value) doc p = ok p
    expand_kind (comment_only text) doc p = ok p
    expand_kind (expr_macro_def def) doc p = ok p
    expand_kind (instr_macro_def def) doc p = ok p

    -- The loop over the statements: the error of one goes to the list.
    unfoldable pub expand_statements : Document → List Statement → Prog → Outcome
    unfolding expand_kind check_params and_then
    expand_statements doc [] p = ok p
    expand_statements doc (st ∷ sts) p =
        and_then (expand_kind st.kind doc (check_params st.kind p)) (expand_statements doc sts)

  unfoldable pub expand : ℕ → Document → List Statement → Prog → Outcome
  unfolding expand_statements
  expand zero doc sts p = out_of_fuel
  expand (suc fuel) doc sts p = expand_statements (expand fuel) doc sts p

  -- The first step of compile.
  unfoldable pub expand_program : ℕ → ℕ → Outcome
  unfolding expand new_compiler_prog finish_expansion after
  expand_program fuel fresh =
      after
        (expand fuel inp.toplevel (inp.statements (info inp.toplevel).id)
          (new_compiler_prog inp.toplevel fresh))
        finish_expansion
