-- ===== src/Asm/Layout/Termination.antt =====
-- The loop of compile ends: each further round has made one PUSH larger, and none grows past 32.
use geas.Prelude.{
  ℕ, zero, suc, ◌+◌, ◌-◌, ◌*◌, ◌≤◌, ◌<◌, ◌≡◌, ◌≢◌, refl, ap, ◌∙◌, Bool, false, List, [], ◌∷◌, ◌++◌,
  length, arith,
}
use geas.Prelude.Int.{ℤ}
use geas.Asm.Program.{Instruction, Elem, inst, section_start, section_end, compute_pc, instructions}
use geas.Asm.Arguments.{
  Evaluator, Assignment, assigned, refused, Round, all_assigned, failed, evaluate_args,
  evaluate_arg, assign_push_arg, variable_push_overflow, after_elem, with_assignment,
}
use geas.Asm.Layout.{LaidOut, out_of_fuel, bump, next_round, round, layout_loop, layout, pcs_of}

module _ {E : Type 0} where
  -- How much the instructions can still grow, 32 bytes each at most.
  unfoldable pub room : List (Elem E) → ℕ
  room [] = 0
  room (inst i ∷ elems) = (32 - i.data_size) + room elems
  room (section_start _ _ ∷ elems) = room elems
  room (section_end _ _ ∷ elems) = room elems

  room-compute_pc : (pc : ℕ) (elems : List (Elem E)) → room (compute_pc pc elems) ≡ room elems
  unfolding room compute_pc
  room-compute_pc pc [] = refl
  room-compute_pc pc (inst i ∷ elems) = omega (arith, room-compute_pc (pc + _) elems)
  room-compute_pc pc (section_start s o ∷ elems) = room-compute_pc pc elems
  room-compute_pc pc (section_end s o ∷ elems) = room-compute_pc pc elems

  room-append : (xs ys : List (Elem E)) → room (xs ++ ys) ≡ room xs + room ys
  unfolding room
  room-append [] ys = omega arith
  room-append (inst i ∷ xs) ys = omega (arith, room-append xs ys)
  room-append (section_start s o ∷ xs) ys = room-append xs ys
  room-append (section_end s o ∷ xs) ys = room-append xs ys

  -- A PUSH is asked to grow only while its argument needs more bytes than it has, and at most 32.
  assign_push_arg-grows :
      (push0 : Bool) (i : Instruction E) (v : ℤ)
      → assign_push_arg push0 i v false ≡ refused variable_push_overflow
      → i.data_size < 32
  unfolding assign_push_arg
  assign_push_arg-grows push0 i v h = ground arith

  pub evaluate_arg-grows :
      (push0 : Bool) (eval : Evaluator E) (pcs : List ℕ) (i : Instruction E)
      → evaluate_arg push0 eval pcs i ≡ refused variable_push_overflow
      → i.data_size < 32
  unfolding evaluate_arg assign_push_arg
  evaluate_arg-grows push0 eval pcs i h = ground arith

  evaluate_arg-data_size :
      (push0 : Bool) (eval : Evaluator E) (pcs : List ℕ) (i j : Instruction E)
      → evaluate_arg push0 eval pcs i ≡ assigned j
      → j.data_size ≡ i.data_size
  unfolding evaluate_arg assign_push_arg
  evaluate_arg-data_size push0 eval pcs i j h = ground arith

  -- A round changes no size; and where it fails by an overflow, the instruction can still grow.
  abbrev RoundRoom : ℕ → Round E → Type 0
  RoundRoom k (all_assigned elems) = room elems ≡ k
  RoundRoom k (failed before i after e) =
      (room before + ((32 - i.data_size) + room after) ≡ k)
      × (e ≡ variable_push_overflow → i.data_size < 32)

  after_elem-RoundRoom :
      (x : Elem E) (k k' : ℕ) (r : Round E)
      → k' ≡ room (x ∷ []) + k
      → RoundRoom k r
      → RoundRoom k' (after_elem x r)
  unfolding room
  after_elem-RoundRoom (inst i) k k' (all_assigned elems) e h = omega arith
  after_elem-RoundRoom (section_start s o) k k' (all_assigned elems) e h = omega arith
  after_elem-RoundRoom (section_end s o) k k' (all_assigned elems) e h = omega arith
  after_elem-RoundRoom (inst i) k k' (failed before j after x) e h = (omega arith, h.1)
  after_elem-RoundRoom (section_start s o) k k' (failed before j after x) e h = (omega arith, h.1)
  after_elem-RoundRoom (section_end s o) k k' (failed before j after x) e h = (omega arith, h.1)

  with_assignment-RoundRoom :
      (push0 : Bool) (eval : Evaluator E) (pcs : List ℕ) (i : Instruction E) (elems : List (Elem E))
      (a : Assignment E) (r : Round E)
      → evaluate_arg push0 eval pcs i ≡ a
      → RoundRoom (room elems) r
      → RoundRoom (room (inst i ∷ elems)) (with_assignment i elems a r)
  unfolding room
  with_assignment-RoundRoom push0 eval pcs i elems (assigned j) r e h =
      after_elem-RoundRoom (inst j) (room elems) _ r
        (unfold room in omega (arith, evaluate_arg-data_size push0 eval pcs i j e)) h
  with_assignment-RoundRoom push0 eval pcs i elems (refused x) r e h =
      (omega arith, λ same. evaluate_arg-grows push0 eval pcs i (e ∙ ap refused same))

  evaluate_args-RoundRoom :
      (push0 : Bool) (eval : Evaluator E) (pcs : List ℕ) (elems : List (Elem E))
      → RoundRoom (room elems) (evaluate_args push0 eval pcs elems)
  unfolding evaluate_args
  evaluate_args-RoundRoom push0 eval pcs [] = refl
  evaluate_args-RoundRoom push0 eval pcs (section_start s o ∷ elems) =
      after_elem-RoundRoom (section_start s o) (room elems) (room (section_start s o ∷ elems)) _
        (unfold room in omega arith) (evaluate_args-RoundRoom push0 eval pcs elems)
  evaluate_args-RoundRoom push0 eval pcs (section_end s o ∷ elems) =
      after_elem-RoundRoom (section_end s o) (room elems) (room (section_end s o ∷ elems)) _
        (unfold room in omega arith) (evaluate_args-RoundRoom push0 eval pcs elems)
  evaluate_args-RoundRoom push0 eval pcs (inst i ∷ elems) =
      with_assignment-RoundRoom push0 eval pcs i elems (evaluate_arg push0 eval pcs i) _ refl
        (evaluate_args-RoundRoom push0 eval pcs elems)

  room-bump :
      (before after : List (Elem E)) (i : Instruction E)
      → i.data_size < 32
      → suc (room (before ++ inst (bump i) ∷ after))
        ≡ room before + ((32 - i.data_size) + room after)
  unfolding room
  room-bump before after i h = omega (arith, room-append before (inst (bump i) ∷ after))

  -- What follows a round does not run out of fuel if a smaller program does not.
  next_round-total :
      (k : ℕ) (r : Round E) (again : List (Elem E) → LaidOut E)
      → RoundRoom k r
      → ((elems : List (Elem E)) → suc (room elems) ≡ k → again elems ≢ out_of_fuel)
      → next_round r again ≢ out_of_fuel
  next_round-total k (all_assigned elems) again h total = λ e. cc
  next_round-total k (failed before i after variable_push_overflow) again h total =
      total _ (room-bump before after i (h.1 refl) ∙ h.0)
  next_round-total k (failed before i after _) again h total = λ e. cc

  -- The loop of compile ends within one round more than the instructions can grow.
  pub layout_loop-total :
      (push0 : Bool) (eval : Evaluator E) (fuel : ℕ) (elems : List (Elem E))
      → room elems < fuel
      → layout_loop push0 eval fuel elems ≢ out_of_fuel
  unfolding layout_loop round
  layout_loop-total push0 eval zero elems h = absurd (omega arith)
  layout_loop-total push0 eval (suc fuel) elems h =
      next_round-total (room elems) _ _
        (rw room-compute_pc at
          (evaluate_args-RoundRoom push0 eval (pcs_of (compute_pc 0 elems)) (compute_pc 0 elems)))
        λ l e. layout_loop-total push0 eval fuel l (omega arith)

  room-le : (elems : List (Elem E)) → room elems ≤ 32 * length (instructions elems)
  unfolding room instructions
  room-le [] = omega arith
  room-le (inst i ∷ elems) = omega (arith, room-le elems)
  room-le (section_start s o ∷ elems) = room-le elems
  room-le (section_end s o ∷ elems) = room-le elems

  -- The loop of compile ends, whatever the evaluator gives, within 32 rounds for each instruction
  -- and one more.
  pub layout_ends :
      (push0 : Bool) (eval : Evaluator E) (elems : List (Elem E))
      → layout push0 eval elems ≢ out_of_fuel
  unfolding layout
  layout_ends push0 eval elems =
      layout_loop-total push0 eval (suc (32 * length (instructions elems))) elems
        (omega (arith, room-le elems))
