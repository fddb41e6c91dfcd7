-- ===== src/Asm/Compile/Tests.antt =====
-- A small program that is expanded and compiled: a macro with a parameter, an include, and a jump.
use geas.Prelude.{
  ℕ, ◌<◌, ◌≤◌, ◌≡◌, refl, ap, inl, inr, true, false, Option, none, some, List, [], ◌∷◌, String,
  ◌==◌, nat_eq, string_eq, eq_iff, All, arith, Bool-cases, if◌then◌else◌, empty, insert, ◌||◌,
}
use mathlib.Core.Path.{subst}
use Prim.Native.Char.{code}
use Prim.Native.String.{◌++◌ as append}
use text.Mathlib.TextLemmas.{cons-append}
use geas.Prelude.Int.{pos}
use geas.Lzint.{from_int}
use geas.Ast.{
  Document, toplevel, inside, info, Expr, literal, label_ref, variable, no_args, arg, LabelDef,
  InstructionMacroDef, is_global,
}
use geas.Ast.Statement.{Statement, StatementKind, opcode, label_def, instr_macro_call, include}
use geas.Loader.{
  Program, new_definitions, definitions_of, defs_of, find_up, or_else, lookup_instr_macro,
  lookup_label,
}
use geas.Evm.Op.{op}
use geas.Evm.Defs.{InstructionSet, has_duplicate}
use geas.Evm.Oplist.{oplist}
use geas.Evm.InstructionSet.{op_by_name, push_by_size}
use geas.Evm.Effect.{decimal}
use geas.Asm.Program.{instructions}
use geas.Asm.Output.{resolve_push}
use geas.Asm.Arguments.{Evaluated, value, unassigned_label}
use geas.Asm.Evaluator.Builtins.{member}
use geas.Asm.Expand.Defs.{
  Input, Term, Prog, finished, panicked, new_compiler_prog, add_instruction, new_instruction,
}
use geas.Asm.Expand.Invariant.{IsNested}
use geas.Asm.Expand.{expand_program}
use geas.Asm.Expand.Resolve.{is_jump, resolve_op, after_resolved}
use geas.Asm.Expand.Opcode.{expand_opcode, find_label, explicit_push_size, validate_jump_arg}
use geas.Asm.Expand.Opcode.Usable.{IsUsable, IsSized}
use geas.Asm.Expand.Opcode.Jump.{IsTarget, PushesDest, expand_opcode-jumps, expand_opcode-no_fork}
use geas.Asm.Expand.Total.{AllFit, IsLoaded}
use geas.Asm.Expand.Finished.{
  IsLinked, expand_program_ends, expand_program-IsNested, expand_program-IsLinked,
}
use geas.Asm.Compile.{compile, CompilesWell, compile-CompilesWell}

-- An instruction set that has an instruction of every name but two.
abbrev most_ops : InstructionSet
most_ops = record {
  name = "test";
  by_name = λ name. if name == "#bytes" || name == "" then none else some (op name 0x5b [] []);
  by_code = empty;
  op_removed = empty;
}

abbrev main_doc : Document
main_doc = toplevel (record { id = 0; file = ""; is_macro = false })

abbrev macro_doc : Document
macro_doc = inside (record { id = 1; file = ""; is_macro = true }) main_doc

abbrev included_doc : Document
included_doc = toplevel (record { id = 2; file = "inc.eas"; is_macro = false })

abbrev push_macro : InstructionMacroDef
push_macro = record { id = 5; ident = "Put"; params = "x" ∷ []; body = macro_doc }

abbrev start_label : LabelDef
start_label = record { id = 0; ident = "Start"; dotted = false }

abbrev one : Expr
one = literal "1" (from_int (pos 1)) false

abbrev statement : StatementKind → Statement
statement kind = record { kind = kind; comment = none; starts_block = false }

abbrev sample_statements : ℕ → List Statement
sample_statements d =
    if d == 0
    then statement (label_def start_label)
      ∷ statement (instr_macro_call "Put" (arg one no_args))
      ∷ statement (include 0 "inc.eas")
      ∷ statement (opcode "JUMP" (some (label_ref "Start" false)) [] 0)
      ∷ []
    else (if d == 1
        then statement (opcode "PUSH" (some (variable "x")) [] 0) ∷ []
        else (if d == 2 then statement (instr_macro_call "Put" (arg one no_args)) ∷ [] else []))

abbrev sample_program : Program
sample_program = record {
  fork_name = "test";
  defs = empty;
  global = record {
    label = insert "Start" start_label empty;
    instr_macro = insert "Put" push_macro empty;
    expr_macro = empty;
  };
  macro_g_labels = λ name. false;
}

abbrev sample : Input
sample = record {
  is_upper = λ c. true;
  to_upper = λ s. s;
  bytes_of = λ s. [];
  program = sample_program;
  fork = some most_ops;
  toplevel = main_doc;
  statements = sample_statements;
  include_doc = λ n. if n == 0 then some included_doc else none;
}

abbrev sample_level : ℕ → ℕ
sample_level d = if d == 0 then 1 else 0

-- The number of the first character.
head : String → ℕ
head String.[] = 0
head (String.◌∷◌ c s) = code c

push_head : (digits : String) → head (append "PUSH" digits) ≡ 80
unfolding head
push_head digits = ap head (cons-append "P" "USH" digits)

other_name : (name text : String) → (head name ≡ head text → ⊥) → (name == text) ≡ false
other_name name text h = elim (Bool-cases (name == text)) [
  | inl e ↦ absurd (h (ap head ((eq_iff name text).0 e)))
  | inr e ↦ e
]

sized_push :
    (n : ℕ)
    → most_ops.by_name (append "PUSH" (decimal n))
      ≡ some (op (append "PUSH" (decimal n)) 0x5b [] [])
unfolding head
sized_push n =
    rw
      (
        other_name (append "PUSH" (decimal n)) "#bytes"
            (λ e. omega (arith, e, push_head (decimal n))),
        other_name (append "PUSH" (decimal n)) "" (λ e. omega (arith, e, push_head (decimal n))),
      )
      refl

most_ops-IsUsable : IsUsable most_ops
unfolding op_by_name resolve_push push_by_size
most_ops-IsUsable = record {
  pushes = λ n le some_byte. (op (append "PUSH" (decimal n)) 0x5b [] [], sized_push n);
  jumpdest = op "JUMPDEST" 0x5b [] [];
  has_jumpdest = refl;
  no_directive = refl;
  no_empty = refl;
}

push-IsSized : IsSized most_ops "PUSH" 0
push-IsSized = record {
  at_most = omega arith;
  zero_bytes = λ h. absurd (omega arith);
  no_digits = λ h. refl;
  no_push = λ h. refl;
}

jump-IsSized : IsSized most_ops "JUMP" 0
jump-IsSized = record {
  at_most = omega arith;
  zero_bytes = λ h. absurd (omega arith);
  no_digits = λ h. refl;
  no_push = λ h. refl;
}

find_up-none : (doc : Document) → find_up {A = InstructionMacroDef} (λ d. none) doc ≡ none
unfolding find_up or_else
find_up-none (toplevel d) = refl
find_up-none (inside d parent) = find_up-none parent

sample-macros :
    (name : String) (doc : Document) (def : InstructionMacroDef)
    → lookup_instr_macro sample.is_upper sample_program name doc ≡ some def
    → member def.id (5 ∷ []) ≡ true
unfolding lookup_instr_macro defs_of definitions_of new_definitions or_else member
sample-macros name doc def h = elim (Bool-cases (is_global sample.is_upper name)) [
  | inl g ↦ elim (Bool-cases ("Put" == name)) [
    | inl e ↦ found def (rw (g, e) at h)
    | inr e ↦ absurd (missing (rw (g, e, find_up-none doc) at h))
  ]
  | inr g ↦ absurd (missing (rw (g, find_up-none doc) at h))
]
  where
    missing : {A : Type 0} → {a : A} → none ≡ some a → ⊥
    missing e = cc e

    found : (def : InstructionMacroDef) → some push_macro ≡ some def → (def.id == 5) || false ≡ true
    found def e = cc e

sample_fit : (d : ℕ) → AllFit sample most_ops sample_level (sample_level d) (sample.statements d)
sample_fit d = elim (Bool-cases (d == 0)) [
  | inl a ↦ rw a (tt, (tt, (include_lower, (jump-IsSized, tt))))
  | inr a ↦ elim (Bool-cases (d == 1)) [
    | inl b ↦ rw (a, b) (push-IsSized, tt)
    | inr b ↦ elim (Bool-cases (d == 2)) [ inl c ↦ rw (a, b, c) (tt, tt) | inr c ↦ rw (a, b, c) tt ]
  ]
]
  where
    include_lower : (doc : Document) → some included_doc ≡ some doc → sample_level (info doc).id < 1
    include_lower doc e = subst (λ x. sample_level (info x).id < 1) (the_doc doc e) (omega arith)
      where
        the_doc : (doc : Document) → some included_doc ≡ some doc → included_doc ≡ doc
        the_doc doc e = cc e

sample_level-le : (d : ℕ) → sample_level d ≤ 1
sample_level-le d = ground arith

sample-IsLoaded : IsLoaded sample most_ops (5 ∷ []) 1 sample_level
sample-IsLoaded = record {
  fork_known = refl;
  usable = most_ops-IsUsable;
  statements_fit = sample_fit;
  level_le = sample_level-le;
  macros_known = sample-macros;
}

expand_program_ends_example :
    (p : Prog) × (expand_program sample 10 100 ≡ finished none p) × (p.macro_stack ≡ [])
expand_program_ends_example =
    expand_program_ends sample most_ops (5 ∷ []) 1 sample_level sample-IsLoaded 10 100 (omega arith)

sample_result : (p : Prog) × (expand_program sample 10 100 ≡ finished none p) × (p.macro_stack ≡ [])
sample_result =
    expand_program_ends sample most_ops (5 ∷ []) 1 sample_level sample-IsLoaded 10 100 (omega arith)

expand_program-IsNested_example : IsNested [] sample_result.0.elems []
expand_program-IsNested_example =
    expand_program-IsNested sample most_ops (5 ∷ []) 1 sample_level sample-IsLoaded 10 100
      (omega arith) sample_result.0 sample_result.1

expand_program-IsLinked_example :
    All (IsLinked (instructions sample_result.0.elems)) sample_result.0.labels
expand_program-IsLinked_example =
    expand_program-IsLinked sample most_ops (5 ∷ []) 1 sample_level sample-IsLoaded 10 100
      (omega arith) sample_result.0 sample_result.1

-- Every expression is 5, once labels are registered.
abbrev five : Option (List ℕ) → Term → Evaluated
five none t = unassigned_label
five (some pcs) t = value (from_int (pos 5))

compile-CompilesWell_example :
    (p : Prog) × (expand_program sample 10 100 ≡ finished none p)
    × CompilesWell most_ops five p (compile most_ops five sample 10 100)
compile-CompilesWell_example =
    compile-CompilesWell most_ops five sample (5 ∷ []) 1 sample_level sample-IsLoaded 10 100
      (omega arith)

abbrev before_jump : Prog
before_jump = new_compiler_prog main_doc 100

abbrev start_ref : Expr
start_ref = label_ref "Start" false

abbrev pushed : Prog
pushed = add_instruction (new_instruction before_jump "PUSH" (some start_ref) none none) before_jump

abbrev jumped : Prog
jumped = add_instruction (new_instruction pushed "JUMP" (some start_ref) none none) pushed

jump_known : is_jump "JUMP" ≡ true
unfolding is_jump oplist has_duplicate
jump_known = refl

jump_expanded :
    expand_opcode sample "JUMP" main_doc (some start_ref) [] 0 before_jump ≡ finished none jumped
unfolding expand_opcode is_jump oplist has_duplicate find_label new_compiler_prog add_instruction
    lookup_label is_global resolve_op op_by_name after_resolved explicit_push_size validate_jump_arg
jump_expanded = refl

expand_opcode-jumps_example :
    IsTarget sample before_jump main_doc start_ref
    × PushesDest sample "JUMP" start_ref 0 before_jump jumped
expand_opcode-jumps_example =
    expand_opcode-jumps sample "JUMP" main_doc start_ref [] 0 before_jump jumped jump_known refl
      jump_expanded

-- #pragma target "nope", with the instruction ADD.
abbrev forkless : Input
forkless = record sample { fork = none }

add_known : is_jump "ADD" ≡ false
unfolding is_jump oplist has_duplicate
add_known = refl

expand_opcode-no_fork_example :
    expand_opcode forkless "ADD" main_doc none [] 0 before_jump ≡ panicked
expand_opcode-no_fork_example =
    expand_opcode-no_fork forkless "ADD" main_doc none [] 0 before_jump refl refl add_known
