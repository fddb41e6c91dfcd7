-- ===== src/Asm/Expand/Defs.antt =====
-- asm/compiler_prog.go, asm/compiler_expand.go: the output program while the documents are expanded
-- into it. What Go compares by pointer (sections, labels, documents) has a number. The source
-- positions in the texts of errors are left out, and so is the limit on the number of errors.
use Prim.Native.Char.{Char}
use geas.Prelude.{
  ℕ, ◌+◌, ltb, Bool, false, Option, none, some, List, [], ◌∷◌, ◌++◌, String, ◌==◌, string_eq,
  nat_eq, if◌then◌else◌, length, Map, empty, insert, is_some,
}
use geas.Ast.{Document, info, inside, Expr, LabelDef, InstructionMacroDef, is_global}
use geas.Ast.Statement.{Statement}
use geas.Loader.{Program}
use geas.Evm.Defs.{InstructionSet}
use geas.Evm.Immediate.{EncodeError}
use geas.Asm.Program.{Instruction, Elem, inst, section_start, section_end, instructions}
use geas.Asm.Evaluator.Defs.{Section, section, MacroArgs, no_macro_args}
use geas.Asm.Evaluator.{remove}
use geas.Asm.Evaluator.Builtins.{member}

-- What the expansion reads. `fork` is nil for an unknown target; `statements` gives the statements of
-- a document, `include_doc` the document of an #include. unicode.IsUpper, strings.ToUpper and the
-- bytes of a string are parameters.
pub record Input : Type 0 where
  pub is_upper : Char → Bool
  pub to_upper : String → String
  pub bytes_of : String → List ℕ
  pub program : Program
  pub fork : Option InstructionSet
  pub toplevel : Document
  pub statements : ℕ → List Statement
  pub include_doc : ℕ → Option Document

pub data ExpandError : Type 0 where
  label_already_defined : LabelDef → LabelDef → ExpandError
  push_without_argument pushzero_with_argument unexpected_argument : ExpandError
  missing_immediate unexpected_immediate : ExpandError
  immediate_refused : String → EncodeError → ExpandError
  unknown_op : String → ExpandError
  removed_op : String → String → ExpandError
  added_op : String → List String → ExpandError
  jump_needs_literal_label : ExpandError
  jump_to_dotted_label jump_to_undefined_label : String → ExpandError
  undefined_instr_macro recursive_call : String → ExpandError
  invalid_argument_count : String → ℕ → ExpandError
  duplicate_param : String → ExpandError

pub data Message : Type 0 where
  error : ExpandError → Message
  assemble_deprecated : Message

-- An argument expression, and the section that it is evaluated in.
pub record Term : Type 0 where
  pub number : ℕ
  pub section : Section
  pub expr : Expr

-- compilerLabel: `instr` is the position of an instruction among the instructions.
pub record PendingLabel : Type 0 where
  pub number : ℕ
  pub doc : ℕ
  pub def : LabelDef
  pub instr : Option ℕ

pub record Frame : Type 0 where
  pub number : ℕ
  pub section : Section

-- compilerProg with the macro stack and the errors of the Compiler. `parents` is the chain of the
-- parents of `cur`; `current_labels` has the numbers of labels; `fresh` is the next number.
pub record Prog : Type 0 where
  pub elems : List (Elem Term)
  pub toplevel : ℕ
  pub cur : Frame
  pub parents : List Frame
  pub labels : List PendingLabel
  pub current_labels : List ℕ
  pub global_labels : Map String PendingLabel
  pub macro_stack : List ℕ
  pub messages : List Message
  pub fresh : ℕ

-- How an expansion ends: with an error of the statement or none, or by a panic.
pub data Outcome : Type 0 where
  finished : Option ExpandError → Prog → Outcome
  panicked out_of_fuel : Outcome

abbrev pub ok : Prog → Outcome
ok p = finished none p

abbrev pub refuse : ExpandError → Prog → Outcome
refuse e p = finished (some e) p

abbrev pub new_section : Document → MacroArgs → ℕ → Frame
new_section doc args n = record { number = n; section = section doc args }

unfoldable pub new_compiler_prog : Document → ℕ → Prog
new_compiler_prog doc fresh = record {
  elems = section_start fresh 0 ∷ [];
  toplevel = fresh;
  cur = new_section doc no_macro_args fresh;
  parents = [];
  labels = [];
  current_labels = [];
  global_labels = empty;
  macro_stack = [];
  messages = [];
  fresh = fresh + 1;
}

unfoldable pub add_message : Message → Prog → Prog
add_message m p = record p { messages = p.messages ++ m ∷ [] }

-- The number of a new pointer.
abbrev pub next_number : Prog → Prog
next_number p = record p { fresh = p.fresh + 1 }

unfoldable pub push_section : Document → MacroArgs → Prog → Prog
push_section doc args p = record p {
  elems = p.elems ++ section_start p.fresh 0 ∷ [];
  cur = new_section doc args p.fresh;
  parents = p.cur ∷ p.parents;
  fresh = p.fresh + 1;
}

pop_to : List Frame → Option ExpandError → Prog → Outcome
pop_to [] e p = panicked
pop_to (f ∷ fs) e p =
    finished e
      (record p { elems = p.elems ++ section_end p.cur.number 0 ∷ []; cur = f; parents = fs })

unfoldable pub pop_section : Option ExpandError → Prog → Outcome
unfolding pop_to
pop_section e p = pop_to p.parents e p

unfoldable pub link : ℕ → List ℕ → List PendingLabel → List PendingLabel
unfolding member
link n current [] = []
link n current (l ∷ labels) =
    (if member l.number current then record l { instr = some n } else l) ∷ link n current labels

-- Labels that wait for an instruction point to it from then on.
unfoldable pub add_instruction : Instruction Term → Prog → Prog
unfolding link instructions
add_instruction i p = record p {
  elems = p.elems ++ inst i ∷ [];
  labels = link (length (instructions p.elems)) p.current_labels p.labels;
  current_labels = [];
}

abbrev pub new_label : LabelDef → Document → ℕ → PendingLabel
new_label def doc n = record { number = n; doc = (info doc).id; def = def; instr = none }

abbrev pub append_label : PendingLabel → Prog → Prog
append_label l p = record p {
  labels = p.labels ++ l ∷ [];
  current_labels = p.current_labels ++ l.number ∷ [];
  fresh = p.fresh + 1;
}

abbrev pub register_global : PendingLabel → Prog → Prog
register_global l p = record p { global_labels = insert l.def.ident l p.global_labels }

unfoldable pub add_label : (Char → Bool) → LabelDef → Document → Prog → Outcome
unfolding is_global
add_label is_upper def doc p =
    let l = new_label def doc p.fresh in
    if is_global is_upper def.ident
    then (if is_some (p.global_labels def.ident)
        then panicked
        else ok (register_global l (append_label l p)))
    else ok (append_label l p)

unfoldable pub enter_macro : InstructionMacroDef → Prog → Prog
enter_macro def p = record p { macro_stack = def.id ∷ p.macro_stack }

unfoldable pub exit_macro : InstructionMacroDef → Prog → Prog
unfolding remove
exit_macro def p = record p { macro_stack = remove def.id p.macro_stack }

-- newInstruction for a statement with this argument, declared size and PC.
abbrev pub located : Prog → Option Expr → Option Term
located p none = none
located p (some e) = some (record { number = p.cur.number; section = p.cur.section; expr = e })

abbrev pub new_instruction : Prog → String → Option Expr → Option ℕ → Option ℕ → Instruction Term
new_instruction p op arg size label = record {
  op = op;
  arg = located p arg;
  explicit_size = size;
  pc_label = label;
  pc = 0;
  data_size = 0;
  data_bytes = [];
  arg_no_labels = false;
}

-- The body of a macro for one call: a copy with a new pointer, inside the document of the definition.
unfoldable pub clone_body : InstructionMacroDef → ℕ → Document
clone_body def n =
    inside (record { id = n; file = (info def.body).file; is_macro = false }) def.body

unfoldable pub empty_instruction : Prog → Instruction Term
empty_instruction p = new_instruction p "" none none none

-- An empty instruction at the end is the destination of the labels that wait for one.
unfoldable pub close_labels : Prog → Prog
unfolding add_instruction empty_instruction
close_labels p =
    if ltb 0 (length p.current_labels) then add_instruction (empty_instruction p) p else p

unfoldable pub close_toplevel : Prog → Outcome
close_toplevel p =
    if p.cur.number == p.toplevel
    then ok (record p { elems = p.elems ++ section_end p.toplevel 0 ∷ [] })
    else panicked

unfoldable pub finish_expansion : Prog → Outcome
unfolding close_labels close_toplevel
finish_expansion p = close_toplevel (close_labels p)
