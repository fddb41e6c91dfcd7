-- ===== src/Asm/Backend/Total.antt =====
-- From the end of the expansion on, compile does not panic.
use geas.Prelude.{
  ℕ, ◌≡◌, ◌≢◌, map, refl, sym, inl, inr, Bool, Bool-cases, ◌==◌, Option, none, some, List, [], ◌∷◌,
  ◌++◌, string_eq, nat_eq, All,
}
use mathlib.Core.Path.{subst}
use geas.Evm.Defs.{InstructionSet}
use geas.Evm.InstructionSet.{supports_push0}
use geas.Asm.Program.{Instruction, Elem, instructions}
use geas.Asm.Arguments.{AsmError, unevaluated_bytes, Evaluator, pre_evaluate_args}
use geas.Asm.Layout.{LaidOut, done, out_of_fuel, layout, pcs_of}
use geas.Asm.Layout.Termination.{layout_ends}
use geas.Asm.Output.{Output, emitted, generate_output}
use geas.Asm.Backend.{
  CompileError, Compiled, errors, written, unfinished, finish, write, argument, last_error,
  pc_error, check_pc_labels, compile_expanded,
}
use geas.Asm.Output.Encoding.{EncodesAll, generate_output-Outputs}
use geas.Asm.Layout.Fixpoint.{IsSettled, IsFixpoint, layout-IsFixpoint}
use geas.Asm.Backend.Kept.{layout-All}
use geas.Asm.Backend.Pairs.{Pairs, EndsPairs, layout-EndsPairs}
use geas.Asm.Backend.Sources.{ComesFrom, ComesFrom-IsKeptPair, IsQuietRaw, IsQuietRaw-IsKeptPair}
use geas.Asm.Backend.Origins.{pre_evaluate_args-ComesFrom}
use geas.Asm.Backend.Calm.{pre_evaluate_args_calm}
use geas.Asm.Backend.Prepared.{Prepared, Prepared-IsKept, Prepared-Encodes}
use geas.Asm.Backend.PreEvaluated.{append_nil, IsExpanded, pre_evaluate_args-Prepared}

map_nil : (es : List AsmError) → map argument es ≡ [] → es ≡ []
map_nil [] h = refl
map_nil (e ∷ es) h = absurd (cc h)

-- The errors of the steps after the expansion.
abbrev pub later_errors : {E : Type 0} → List AsmError → LaidOut E → List CompileError
later_errors errs out_of_fuel = []
later_errors errs (done elems e) =
    map argument errs ++ last_error e ++ check_pc_labels (instructions elems)

-- An error that is reported, and not the panic of evaluateArgs.
abbrev pub IsReported : CompileError → Type 0
IsReported e = e ≢ argument unevaluated_bytes

append-IsReported :
    (xs ys : List CompileError) → All IsReported xs → All IsReported ys → All IsReported (xs ++ ys)
append-IsReported [] ys all more = more
append-IsReported (x ∷ xs) ys all more = (all.0, append-IsReported xs ys all.1 more)

argument_calm : (e : AsmError) → e ≢ unevaluated_bytes → argument e ≢ argument unevaluated_bytes
argument_calm e h k = h (cc k)

map_calm :
    (es : List AsmError) → All (λ e. e ≢ unevaluated_bytes) es → All IsReported (map argument es)
map_calm [] all = tt
map_calm (e ∷ es) all = (argument_calm e all.0, map_calm es all.1)

check_pc_labels_calm :
    {E : Type 0} (insts : List (Instruction E)) → All IsReported (check_pc_labels insts)
unfolding check_pc_labels pc_error
check_pc_labels_calm [] = tt
check_pc_labels_calm (i ∷ insts) =
    append-IsReported (pc_error i.pc_label i.pc) _ (one i.pc_label i.pc)
      (check_pc_labels_calm insts)
  where
    one : (label : Option ℕ) (pc : ℕ) → All IsReported (pc_error label pc)
    one none pc = tt
    one (some label) pc = elim (Bool-cases (label == pc)) [
      | inl e ↦ rw e tt
      | inr e ↦ rw e ((λ x. cc x), tt)
    ]

module _ {E : Type 0} (push0 : Bool) (eval : Evaluator E) where
  laid_out_calm :
      (origins : List (Instruction E)) (errs : List AsmError) (r : LaidOut E)
      → All (λ e. e ≢ unevaluated_bytes) errs
      → EndsPairs push0 eval (IsQuietRaw push0 eval) (IsQuietRaw-IsKeptPair push0 eval) origins r
      → All IsReported (later_errors errs r)
  laid_out_calm origins errs out_of_fuel calm h = tt
  laid_out_calm origins errs (done elems none) calm h =
      append-IsReported (map argument errs ++ []) _
        (append-IsReported (map argument errs) [] (map_calm errs calm) tt)
        (check_pc_labels_calm (instructions elems))
  laid_out_calm origins errs (done elems (some x)) calm h =
      append-IsReported (map argument errs ++ argument x ∷ []) _
        (append-IsReported (map argument errs) (argument x ∷ []) (map_calm errs calm)
          ((argument_calm x h), tt))
        (check_pc_labels_calm (instructions elems))

  -- None of them is the panic of evaluateArgs.
  pub later_errors_reported :
      (elems : List (Elem E))
      → All
          (λ e. e ≢ argument unevaluated_bytes)
          (later_errors
            (pre_evaluate_args push0 eval elems).1
            (layout push0 eval (pre_evaluate_args push0 eval elems).0))
  later_errors_reported elems =
      let (quiet, calm) = pre_evaluate_args_calm eval push0 elems in
      laid_out_calm (instructions elems) (pre_evaluate_args push0 eval elems).1
        (layout push0 eval (pre_evaluate_args push0 eval elems).0) calm
        (layout-EndsPairs push0 eval (IsQuietRaw push0 eval) (IsQuietRaw-IsKeptPair push0 eval)
          (instructions elems) (pre_evaluate_args push0 eval elems).0 quiet)

module _ {E : Type 0} (is : InstructionSet) where
  Prepared-EncodesAll :
      (eval : Evaluator E) (pcs : List ℕ) (insts : List (Instruction E))
      → All (Prepared is) insts
      → All (IsSettled eval pcs) insts
      → (bs : List ℕ) × EncodesAll is insts bs
  Prepared-EncodesAll eval pcs [] all settled = ([], refl)
  Prepared-EncodesAll eval pcs (i ∷ insts) all settled =
      let (b, enc) = Prepared-Encodes is eval pcs i all.0 settled.0 in
      let (more, rest) = Prepared-EncodesAll eval pcs insts all.1 settled.1 in
      (b ++ more, (b, more, refl, enc, rest))

  -- How compile ends with the instructions `elems`: with errors, or with the bytes of a program that
  -- has the same instructions with the bytes of their arguments, and is at a fixpoint.
  abbrev pub EndsWell : Evaluator E → List (Elem E) → Compiled → Type 0
  EndsWell eval elems unfinished = ⊥
  EndsWell eval elems (errors es) = (es ≢ []) × All IsReported es
  EndsWell eval elems (written e) =
      (after : List (Elem E)) × (out : Output) × (e ≡ emitted out)
      × (out.unknown ≡ [])
      × Pairs (ComesFrom eval) (instructions elems) after
      × IsFixpoint eval after
      × EncodesAll is (instructions after) out.bytes

  -- What is known of the program that the loop ends with.
  abbrev IsFinal : Evaluator E → List (Elem E) → List (Elem E) → Type 0
  IsFinal eval elems after =
      All (Prepared is) (instructions after)
      × Pairs (ComesFrom eval) (instructions elems) after
      × IsFixpoint eval after

  written-EndsWell :
      (eval : Evaluator E) (elems after : List (Elem E))
      → IsFinal eval elems after
      → EndsWell eval elems (written (generate_output is (instructions after)))
  written-EndsWell eval elems after (all, pairs, fix) =
      let (bs, enc) = Prepared-EncodesAll eval (pcs_of after) (instructions after) all fix.1 in
      let (out, e, same, known) = generate_output-Outputs is after bs fix.0 enc in
      (after, out, e, known, pairs, fix, subst (EncodesAll is (instructions after)) (sym same) enc)

  write-EndsWell :
      (eval : Evaluator E) (elems after : List (Elem E)) (es : List CompileError)
      → All IsReported es
      → (es ≡ [] → IsFinal eval elems after)
      → EndsWell eval elems (write is after es)
  write-EndsWell eval elems after [] reported h = written-EndsWell eval elems after (h refl)
  write-EndsWell eval elems after (e ∷ es) reported h = ((λ x. cc x), reported)

  finish-EndsWell :
      (eval : Evaluator E) (elems : List (Elem E)) (errs : List AsmError) (r : LaidOut E)
      → r ≢ out_of_fuel
      → All IsReported (later_errors errs r)
      → ((after : List (Elem E)) → errs ≡ [] → r ≡ done after none → IsFinal eval elems after)
      → EndsWell eval elems (finish is errs r)
  finish-EndsWell eval elems errs out_of_fuel ends reported h = ends refl
  finish-EndsWell eval elems errs (done after (some x)) ends reported h =
      write-EndsWell eval elems after _ reported λ e.
        let front = append_nil _ (check_pc_labels (instructions after)) e in
        let last : argument x ∷ [] ≡ [] =
          (append_nil (map argument errs) (argument x ∷ []) front.0).1 in
        absurd (cc last)
  finish-EndsWell eval elems errs (done after none) ends reported h =
      write-EndsWell eval elems after _ reported λ e.
        h after
          (map_nil errs
            (append_nil (map argument errs) []
              (append_nil _ (check_pc_labels (instructions after)) e).0).0)
          refl

  -- If the instructions are as the expansion makes them, the fork having an opcode for each size of a
  -- PUSH, then compile ends, without a panic of evaluateArgs, and either reports an error, or
  -- generateOutput neither panics nor reports an error, and its bytes are the encodings of the same
  -- instructions with the bytes of their arguments, in which PCs, sizes and PUSH arguments agree.
  pub compile_expanded-EndsWell :
      (eval : Evaluator E) (elems : List (Elem E))
      → All (IsExpanded is) (instructions elems)
      → EndsWell eval elems (compile_expanded is eval elems)
  unfolding compile_expanded
  compile_expanded-EndsWell eval elems all =
      let push0 = supports_push0 is in
      let pre = pre_evaluate_args push0 eval elems in
      finish-EndsWell eval elems pre.1 (layout push0 eval pre.0) (layout_ends push0 eval pre.0)
        (later_errors_reported push0 eval elems)
        λ after no_errors e. (
          layout-All push0 eval (Prepared is) (Prepared-IsKept is push0 eval) pre.0 after
              (pre_evaluate_args-Prepared is eval elems all no_errors) e,
          subst
              (EndsPairs push0 eval (ComesFrom eval) (ComesFrom-IsKeptPair push0 eval)
                (instructions elems))
              e
              (layout-EndsPairs push0 eval (ComesFrom eval) (ComesFrom-IsKeptPair push0 eval)
                (instructions elems) pre.0
                (pre_evaluate_args-ComesFrom is eval push0 elems all no_errors)),
          layout-IsFixpoint push0 eval pre.0 after e,
        )
