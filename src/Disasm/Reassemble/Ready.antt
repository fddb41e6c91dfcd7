-- ===== src/Disasm/Reassemble/Ready.antt =====
-- A program whose arguments have been evaluated before the layout: one round of the loop ends it, and
-- the output is the encodings.
use geas.Prelude.{ℕ, ◌+◌, ◌≡◌, refl, Bool, none, List, [], ◌∷◌, All, string_eq}
use geas.Evm.Defs.{InstructionSet}
use geas.Evm.InstructionSet.{supports_push0}
use geas.Asm.Program.{
  Instruction, Elem, inst, section_start, section_end, instructions, compute_pc, encoded_size,
}
use geas.Asm.Program.Pc.{compute_pc-IsPlaced}
use geas.Asm.Arguments.{Evaluator, all_assigned, evaluate_args, pre_evaluate_args}
use geas.Asm.Layout.{done, layout, layout_loop, round, pcs_of}
use geas.Asm.Output.{Output, emitted}
use geas.Asm.Output.Encoding.{EncodesAll, generate_output-Outputs}
use geas.Asm.Backend.{written, compile_expanded, check_pc_labels}
use geas.Asm.Backend.Prepared.{IsQuiet, quiet_stays, Encodes-moved}

module _ {E : Type 0} (is : InstructionSet) (eval : Evaluator E) where
  -- The loop does nothing to the instruction, and it has no PC label.
  abbrev pub IsReady : Instruction E → Type 0
  IsReady i = IsQuiet is i × (i.pc_label ≡ none)

  evaluate_args-IsReady :
      (push0 : Bool) (pcs : List ℕ) (elems : List (Elem E))
      → All IsReady (instructions elems)
      → evaluate_args push0 eval pcs elems ≡ all_assigned elems
  unfolding evaluate_args instructions
  evaluate_args-IsReady push0 pcs [] all = refl
  evaluate_args-IsReady push0 pcs (inst i ∷ elems) all =
      rw (quiet_stays is push0 eval pcs i all.0.0, evaluate_args-IsReady push0 pcs elems all.1) refl
  evaluate_args-IsReady push0 pcs (section_start s o ∷ elems) all =
      rw (evaluate_args-IsReady push0 pcs elems all) refl
  evaluate_args-IsReady push0 pcs (section_end s o ∷ elems) all =
      rw (evaluate_args-IsReady push0 pcs elems all) refl

  compute_pc-IsReady :
      (pc : ℕ) (elems : List (Elem E))
      → All IsReady (instructions elems)
      → All IsReady (instructions (compute_pc pc elems))
  unfolding compute_pc instructions
  compute_pc-IsReady pc [] all = tt
  compute_pc-IsReady pc (inst i ∷ elems) all =
      (all.0, compute_pc-IsReady (pc + encoded_size i) elems all.1)
  compute_pc-IsReady pc (section_start s o ∷ elems) all = compute_pc-IsReady pc elems all
  compute_pc-IsReady pc (section_end s o ∷ elems) all = compute_pc-IsReady pc elems all

  compute_pc-EncodesAll :
      (pc : ℕ) (elems : List (Elem E)) (bs : List ℕ)
      → EncodesAll is (instructions elems) bs
      → EncodesAll is (instructions (compute_pc pc elems)) bs
  unfolding compute_pc instructions
  compute_pc-EncodesAll pc [] bs all = all
  compute_pc-EncodesAll pc (inst i ∷ elems) bs (b, more, e, enc, all) = (
    b,
    more,
    e,
    Encodes-moved is i pc b enc,
    compute_pc-EncodesAll (pc + encoded_size i) elems more all,
  )
  compute_pc-EncodesAll pc (section_start s o ∷ elems) bs all =
      compute_pc-EncodesAll pc elems bs all
  compute_pc-EncodesAll pc (section_end s o ∷ elems) bs all = compute_pc-EncodesAll pc elems bs all

  check_pc_labels-IsReady :
      (insts : List (Instruction E)) → All IsReady insts → check_pc_labels insts ≡ []
  unfolding check_pc_labels
  check_pc_labels-IsReady [] all = refl
  check_pc_labels-IsReady (i ∷ insts) all = rw (all.0.1, check_pc_labels-IsReady insts all.1) refl

  layout-IsReady :
      (push0 : Bool) (elems : List (Elem E))
      → All IsReady (instructions elems)
      → layout push0 eval elems ≡ done (compute_pc 0 elems) none
  unfolding layout layout_loop round
  layout-IsReady push0 elems all =
      rw
        (evaluate_args-IsReady push0 (pcs_of (compute_pc 0 elems)) (compute_pc 0 elems)
          (compute_pc-IsReady 0 elems all))
        refl

  pub compile_expanded-IsReady :
      (elems pre : List (Elem E)) (bs : List ℕ)
      → pre_evaluate_args (supports_push0 is) eval elems ≡ (pre, [])
      → All IsReady (instructions pre)
      → EncodesAll is (instructions pre) bs
      → (out : Output) × (compile_expanded is eval elems ≡ written (emitted out))
        × (out.bytes ≡ bs)
        × (out.unknown ≡ [])
  unfolding compile_expanded
  compile_expanded-IsReady elems pre bs evaluated all enc =
      let (out, e, same, known) =
        generate_output-Outputs is (compute_pc 0 pre) bs (compute_pc-IsPlaced 0 pre)
          (compute_pc-EncodesAll 0 pre bs enc) in
      (
        out,
        rw
            (
              evaluated,
              layout-IsReady (supports_push0 is) pre all,
              check_pc_labels-IsReady (instructions (compute_pc 0 pre))
                  (compute_pc-IsReady 0 pre all),
              e,
            )
            refl,
        same,
        known,
      )
