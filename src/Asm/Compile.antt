-- ===== src/Asm/Compile.antt =====
-- asm/compiler.go, compile: the expansion and the steps after it, for a program whose fork is known.
-- There is no output if the expansion reports an error; the other steps are taken all the same, and
-- report theirs. Warnings, macro overrides and the stack check are left out.
mod Tests
use geas.Prelude.{
  ℕ, suc, ◌+◌, ◌*◌, ◌<◌, ◌≡◌, ◌≢◌, sym, refl, none, some, List, [], ◌∷◌, ◌++◌, map, length, All,
}
use geas.Evm.Defs.{InstructionSet}
use geas.Evm.InstructionSet.{supports_push0}
use geas.Asm.Program.{Elem, instructions}
use geas.Asm.Arguments.{AsmError, Evaluator, pre_evaluate_args}
use geas.Asm.Layout.{LaidOut, done, out_of_fuel, layout}
use geas.Asm.Layout.Termination.{layout_ends}
use geas.Asm.Backend.{
  CompileError, Compiled, argument, last_error, check_pc_labels, compile_expanded,
}
use geas.Asm.Backend.PreEvaluated.{IsExpanded}
use geas.Asm.Backend.Total.{
  EndsWell, IsReported, later_errors, later_errors_reported, compile_expanded-EndsWell,
}
use geas.Asm.Expand
use geas.Asm.Expand.Defs
use geas.Asm.Expand.Defs.{
  Input, ExpandError, Message, error, Term, Prog, Outcome, finished, panicked,
}
use geas.Asm.Expand.{expand_program}
use geas.Asm.Expand.Total.{IsLoaded}
use geas.Asm.Expand.Finished.{Finished, expand_program-Finished}

pub data Compilation : Type 0 where
  failed : List ExpandError → List CompileError → Compilation
  compiled : Compiled → Compilation
  crashed unfinished : Compilation

unfoldable pub errors_of : List Message → List ExpandError
errors_of [] = []
errors_of (error e ∷ messages) = e ∷ errors_of messages
errors_of (_ ∷ messages) = errors_of messages

-- What the later steps report.
more_errors : List ExpandError → List AsmError → LaidOut Term → Compilation
unfolding check_pc_labels
more_errors errs found out_of_fuel = unfinished
more_errors errs found (done elems e) =
    failed errs (map argument found ++ last_error e ++ check_pc_labels (instructions elems))

module _ (is : InstructionSet) (eval : Evaluator Term) where
  with_errors : List ExpandError → List (Elem Term) → Compilation
  unfolding more_errors
  with_errors [] elems = compiled (compile_expanded is eval elems)
  with_errors (e ∷ errs) elems =
      let pre = pre_evaluate_args (supports_push0 is) eval elems in
      more_errors (e ∷ errs) pre.1 (layout (supports_push0 is) eval pre.0)

  from_outcome : Outcome → Compilation
  unfolding with_errors errors_of
  from_outcome (finished e p) = with_errors (errors_of p.messages) p.elems
  from_outcome panicked = crashed
  from_outcome Defs.out_of_fuel = unfinished

  unfoldable pub compile : Input → ℕ → ℕ → Compilation
  unfolding from_outcome expand_program
  compile inp fuel fresh = from_outcome (expand_program inp fuel fresh)

  -- It ends, with the errors of the expansion and of the later steps, or as the later steps do with
  -- the instructions of the expansion.
  abbrev pub CompilesWell : Prog → Compilation → Type 0
  CompilesWell p (failed errs es) = (errs ≡ errors_of p.messages) × (errs ≢ []) × All IsReported es
  CompilesWell p (compiled c) = (errors_of p.messages ≡ []) × EndsWell is eval p.elems c
  CompilesWell p crashed = ⊥
  CompilesWell p unfinished = ⊥

  more_errors-CompilesWell :
      (p : Prog) (errs : List ExpandError) (found : List AsmError) (r : LaidOut Term)
      → (r ≡ out_of_fuel → ⊥)
      → errs ≡ errors_of p.messages
      → errs ≢ []
      → All IsReported (later_errors found r)
      → CompilesWell p (more_errors errs found r)
  unfolding more_errors
  more_errors-CompilesWell p errs found out_of_fuel ends same some_error reported = ends refl
  more_errors-CompilesWell p errs found (done elems x) ends same some_error reported =
      (same, some_error, reported)

  with_errors-CompilesWell :
      (p : Prog) (errs : List ExpandError)
      → errors_of p.messages ≡ errs
      → All (IsExpanded is) (instructions p.elems)
      → CompilesWell p (with_errors errs p.elems)
  unfolding with_errors
  with_errors-CompilesWell p [] same all = (same, compile_expanded-EndsWell is eval p.elems all)
  with_errors-CompilesWell p (e ∷ errs) same all =
      let pre = pre_evaluate_args (supports_push0 is) eval p.elems in
      more_errors-CompilesWell p (e ∷ errs) pre.1 (layout (supports_push0 is) eval pre.0)
        (layout_ends (supports_push0 is) eval pre.0) (sym same) (λ x. cc x)
        (later_errors_reported (supports_push0 is) eval p.elems)

  from_outcome-CompilesWell :
      (o : Outcome)
      → Finished is o
      → (p : Prog) × (o ≡ finished none p) × CompilesWell p (from_outcome o)
  unfolding from_outcome
  from_outcome-CompilesWell (finished none p) h =
      (p, refl, with_errors-CompilesWell p (errors_of p.messages) refl h.1)
  from_outcome-CompilesWell (finished (some e) p) h = absurd h
  from_outcome-CompilesWell panicked h = absurd h
  from_outcome-CompilesWell Defs.out_of_fuel h = absurd h

  -- If the program is loaded, its fork known and usable, and the fuel of the expansion more than one
  -- for each level of each macro, then the expansion ends with a program, and compile ends without a
  -- panic, whatever the evaluator gives: with the errors of the expansion, if it reported any; with
  -- errors of the later steps; or with bytes that are the encodings of the program's instructions, in
  -- order, each with the bytes of its argument, where PCs, sizes and PUSH arguments agree.
  pub compile-CompilesWell :
      (inp : Input) (macros : List ℕ) (most : ℕ) (level : ℕ → ℕ)
      → IsLoaded inp is macros most level
      → (fuel fresh : ℕ) → length macros * suc most + most < fuel
      → (p : Prog) × (expand_program inp fuel fresh ≡ finished none p)
        × CompilesWell p (compile inp fuel fresh)
  unfolding compile
  compile-CompilesWell inp macros most level loaded fuel fresh enough =
      from_outcome-CompilesWell (expand_program inp fuel fresh)
        (expand_program-Finished inp is macros most level loaded fuel fresh enough)
