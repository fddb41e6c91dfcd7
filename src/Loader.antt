-- ===== src/Loader.antt =====
-- internal/loader/program.go: the definitions of a program, and how names are resolved in a
-- document. The Program record is pure here: registering returns the new one.
pub mod Lookup
pub mod ErrorList
mod Tests
use Prim.Native.Char.{Char}
use geas.Prelude.{
  ℕ, Bool, true, false, Option, none, some, List, [], ◌∷◌, String, ◌==◌, nat_eq, string_eq,
  if◌then◌else◌, Map, empty, insert, is_some,
}
use geas.Ast.{
  Document, DocInfo, toplevel, inside, info, LabelDef, ExpressionMacroDef, InstructionMacroDef,
  is_global,
}

pub record Definitions : Type 0 where
  pub label : Map String LabelDef
  pub instr_macro : Map String InstructionMacroDef
  pub expr_macro : Map String ExpressionMacroDef

unfoldable pub new_definitions : Definitions
new_definitions = record { label = empty; instr_macro = empty; expr_macro = empty }

-- The fork is kept by its name; the include map and the toplevel document are not kept. A key that
-- `defs` lacks has no definitions, as in Go. `macro_g_labels` is a set.
pub record Program : Type 0 where
  pub fork_name : String
  pub defs : Map ℕ Definitions
  pub global : Definitions
  pub macro_g_labels : String → Bool

pub data RegisterError : Type 0 where
  macro_defined : ExpressionMacroDef → RegisterError
  instr_macro_defined : InstructionMacroDef → RegisterError
  label_defined : LabelDef → LabelDef → RegisterError

pub data Registered : Type 0 where
  registered : Program → Registered
  rejected : RegisterError → Registered

unfoldable pub definitions_of : Option Definitions → Definitions
definitions_of none = new_definitions
definitions_of (some d) = d

-- p.defs[doc], where a missing key gives nil maps.
unfoldable pub defs_of : Program → ℕ → Definitions
unfolding definitions_of new_definitions
defs_of p doc = definitions_of (p.defs doc)

unfoldable pub new_program : String → Program
unfolding new_definitions
new_program fork_name = record {
  fork_name = fork_name;
  defs = empty;
  global = new_definitions;
  macro_g_labels = λ _. false;
}

-- The loops over the Parent chain.
unfoldable pub or_else {ℓ} : {A : Type ℓ} → Option A → Option A → Option A
or_else none o = o
or_else (some a) o = some a

unfoldable pub find_up {ℓ} : {A : Type ℓ} → (ℕ → Option A) → Document → Option A
unfolding or_else
find_up f (toplevel d) = f d.id
find_up f (inside d parent) = or_else (f d.id) (find_up f parent)

insert_label : Program → ℕ → LabelDef → Program
unfolding defs_of
insert_label p doc def = record p {
  defs =
      insert doc (record (defs_of p doc) { label = insert def.ident def (defs_of p doc).label })
        p.defs;
}

module _ (is_upper : Char → Bool) where
  unfoldable pub lookup_expr_macro : Program → String → Document → Option ExpressionMacroDef
  unfolding find_up defs_of is_global
  lookup_expr_macro p name doc =
      if is_global is_upper name
      then p.global.expr_macro name
      else find_up (λ d. (defs_of p d).expr_macro name) doc

  unfoldable pub lookup_instr_macro : Program → String → Document → Option InstructionMacroDef
  unfolding find_up defs_of is_global or_else
  lookup_instr_macro p name doc =
      or_else (if is_global is_upper name then p.global.instr_macro name else none)
        (find_up (λ d. (defs_of p d).instr_macro name) doc)

  -- With the flag inMacro.
  unfoldable pub lookup_label : Program → String → Document → Option LabelDef × Bool
  unfolding find_up defs_of is_global
  lookup_label p name doc =
      if is_global is_upper name
      then (p.global.label name, p.macro_g_labels name)
      else (find_up (λ d. (defs_of p d).label name) doc, false)

  -- The checked insertion, at `existing`, the definition of the name in the scope.
  insert_expr_macro : Program → ℕ → ExpressionMacroDef → Program
  unfolding defs_of is_global
  insert_expr_macro p doc def =
      if is_global is_upper def.ident
      then record p {
        global = record p.global { expr_macro = insert def.ident def p.global.expr_macro };
      }
      else record p {
        defs =
            insert doc
              (record (defs_of p doc) {
                expr_macro = insert def.ident def (defs_of p doc).expr_macro;
              })
              p.defs;
      }

  add_expr_macro : Program → ℕ → ExpressionMacroDef → Option ExpressionMacroDef → Registered
  unfolding insert_expr_macro
  add_expr_macro p doc def (some existing) = rejected (macro_defined existing)
  add_expr_macro p doc def none = registered (insert_expr_macro p doc def)

  unfoldable pub register_expr_macro : Program → ℕ → ExpressionMacroDef → Registered
  unfolding add_expr_macro defs_of is_global
  register_expr_macro p doc def = add_expr_macro p doc def (
      if is_global is_upper def.ident
      then p.global.expr_macro def.ident
      else (defs_of p doc).expr_macro def.ident)

  insert_instr_macro : Program → ℕ → InstructionMacroDef → Program
  unfolding defs_of is_global
  insert_instr_macro p doc def =
      if is_global is_upper def.ident
      then record p {
        global = record p.global { instr_macro = insert def.ident def p.global.instr_macro };
      }
      else record p {
        defs =
            insert doc
              (record (defs_of p doc) {
                instr_macro = insert def.ident def (defs_of p doc).instr_macro;
              })
              p.defs;
      }

  add_instr_macro : Program → ℕ → InstructionMacroDef → Option InstructionMacroDef → Registered
  unfolding insert_instr_macro
  add_instr_macro p doc def (some existing) = rejected (instr_macro_defined existing)
  add_instr_macro p doc def none = registered (insert_instr_macro p doc def)

  unfoldable pub register_instr_macro : Program → ℕ → InstructionMacroDef → Registered
  unfolding add_instr_macro defs_of is_global
  register_instr_macro p doc def = add_instr_macro p doc def (
      if is_global is_upper def.ident
      then p.global.instr_macro def.ident
      else (defs_of p doc).instr_macro def.ident)

  -- The first global definition stays; a global label in a macro body is marked.
  register_global_label : Program → DocInfo → LabelDef → Program
  register_global_label p doc def = record p {
    global = record p.global {
      label =
          if is_some (p.global.label def.ident)
          then p.global.label
          else insert def.ident def p.global.label;
    };
    macro_g_labels = λ name.
        if doc.is_macro
        then (if def.ident == name then true else p.macro_g_labels name)
        else p.macro_g_labels name;
  }

  register_local_label : Program → ℕ → LabelDef → Option LabelDef → Registered
  unfolding insert_label
  register_local_label p doc def (some existing) = rejected (label_defined existing def)
  register_local_label p doc def none = registered (insert_label p doc def)

  unfoldable pub register_label : Program → DocInfo → LabelDef → Registered
  unfolding register_global_label register_local_label defs_of is_global
  register_label p doc def =
      if is_global is_upper def.ident
      then registered (register_global_label p doc def)
      else register_local_label p doc.id def ((defs_of p doc.id).label def.ident)
