-- ===== src/Asm/Arguments.antt =====
-- asm/compiler_eval.go: the argument values of instructions. The evaluator is a parameter `eval`: it
-- is given the PCs of the instructions once labels are registered, and `none` before that. What it
-- does to its caches and to the set of used labels is not modelled.
use geas.Prelude.{
  ℕ, Bool, true, false, not, ◌&&◌, Option, none, some, List, [], ◌∷◌, ◌++◌, ltb, ◌==◌, nat_eq,
  if◌then◌else◌, length, is_some,
}
use geas.Prelude.Int.{ℤ, is_negative, magnitude}
use geas.Lzint
use geas.Lzint.{Value, nat_bytes}
use geas.Asm.Program.{Instruction, Elem, inst, section_start, section_end, is_bytes, is_push}

-- `unevaluated_bytes` is the panic of evaluateArgs.
pub data AsmError : Type 0 where
  negative_result push_overflow_256 variable_push_overflow fixed_size_push_overflow : AsmError
  label_in_bytes label_unassigned unevaluated_bytes : AsmError
  not_bytes : Lzint.BytesError → AsmError
  evaluation : ℕ → AsmError

-- What the evaluator returns: a value, the special error of a label that has no PC yet, or another
-- error, which is a number here.
pub data Evaluated : Type 0 where
  value : Value → Evaluated
  unassigned_label : Evaluated
  failure : ℕ → Evaluated

abbrev pub Evaluator : Type 0 → Type 0
Evaluator E = Option (List ℕ) → E → Evaluated

-- The panic for more than 32 bytes does not arise: assignPushArg returns an error before.
unfoldable pub auto_push_size : Bool → List ℕ → ℕ
auto_push_size push0 b = if (length b == 0) && not push0 then 1 else length b

pub data Assignment (E : Type 0) : Type 0 where
  assigned : Instruction E → Assignment E
  refused : AsmError → Assignment E

-- How a round of evaluateArgs ends: with all arguments assigned, or at the first instruction that
-- fails, between what comes before it and what comes after.
pub data Round (E : Type 0) : Type 0 where
  all_assigned : List (Elem E) → Round E
  failed : List (Elem E) → Instruction E → List (Elem E) → AsmError → Round E

unfoldable pub initial_size : Option ℕ → ℕ
initial_size none = 1
initial_size (some n) = n

module _ {E : Type 0} where
  -- The checks after dataSize is set. `i` is the instruction with its final size.
  store_arg : Instruction E → List ℕ → Assignment E
  store_arg i b =
      if ltb i.data_size (length b)
      then refused
          (if is_some i.explicit_size then fixed_size_push_overflow else variable_push_overflow)
      else assigned (record i { data_bytes = b })

  sized : Bool → Instruction E → Bool → List ℕ → Instruction E
  sized push0 i set_size b =
      if set_size && not (is_some i.explicit_size)
      then record i { data_size = auto_push_size push0 b }
      else i

  -- A refusal leaves the instruction as it was: a size that was just set is never too small.
  unfoldable pub assign_push_arg : Bool → Instruction E → ℤ → Bool → Assignment E
  unfolding store_arg sized
  assign_push_arg push0 i v set_size =
      let b = nat_bytes (magnitude v) in
      if is_negative v
      then refused negative_result
      else (if ltb 32 (length b)
          then refused push_overflow_256
          else store_arg (sized push0 i set_size b) b)

  -- One step of evaluateArgs, for a PUSH with an argument.
  evaluated_push : Bool → Instruction E → Evaluated → Assignment E
  evaluated_push push0 i (value v) = assign_push_arg push0 i v.int false
  evaluated_push push0 i unassigned_label = refused label_unassigned
  evaluated_push push0 i (failure e) = refused (evaluation e)

  push_with : Bool → Evaluator E → List ℕ → Instruction E → Option E → Assignment E
  unfolding evaluated_push
  push_with push0 eval pcs i none = assigned i
  push_with push0 eval pcs i (some e) = evaluated_push push0 i (eval (some pcs) e)

  unfoldable pub evaluate_arg : Bool → Evaluator E → List ℕ → Instruction E → Assignment E
  unfolding push_with
  evaluate_arg push0 eval pcs i =
      if i.arg_no_labels
      then assigned i
      else (if is_bytes i.op
          then refused unevaluated_bytes
          else (if is_push i.op then push_with push0 eval pcs i i.arg else assigned i))

  abbrev pub after_elem : Elem E → Round E → Round E
  after_elem x (all_assigned elems) = all_assigned (x ∷ elems)
  after_elem x (failed before i after e) = failed (x ∷ before) i after e

  abbrev pub with_assignment : Instruction E → List (Elem E) → Assignment E → Round E → Round E
  with_assignment i after (refused e) rest = failed [] i after e
  with_assignment i after (assigned j) rest = after_elem (inst j) rest

  unfoldable pub evaluate_args : Bool → Evaluator E → List ℕ → List (Elem E) → Round E
  evaluate_args push0 eval pcs [] = all_assigned []
  evaluate_args push0 eval pcs (inst i ∷ elems) =
      with_assignment i elems (evaluate_arg push0 eval pcs i) (evaluate_args push0 eval pcs elems)
  evaluate_args push0 eval pcs (section_start s pc ∷ elems) =
      after_elem (section_start s pc) (evaluate_args push0 eval pcs elems)
  evaluate_args push0 eval pcs (section_end s pc ∷ elems) =
      after_elem (section_end s pc) (evaluate_args push0 eval pcs elems)

  -- preEvaluateArgs: one instruction, and the error that it adds to the list.
  unfoldable pub pre_bytes : Instruction E → Lzint.BytesResult → Instruction E × List AsmError
  pre_bytes i (Lzint.ok b) = (record i { data_bytes = b; data_size = length b }, [])
  pre_bytes i (Lzint.err e) = (i, not_bytes e ∷ [])

  unfoldable pub pre_evaluated_bytes : Instruction E → Evaluated → Instruction E × List AsmError
  unfolding pre_bytes
  pre_evaluated_bytes i (value v) = pre_bytes i (Lzint.bytes v)
  pre_evaluated_bytes i unassigned_label = (i, label_in_bytes ∷ [])
  pre_evaluated_bytes i (failure e) = (i, evaluation e ∷ [])

  unfoldable pub pre_stored : Instruction E → Assignment E → Instruction E × List AsmError
  pre_stored i (assigned j) = (j, [])
  pre_stored i (refused e) = (i, e ∷ [])

  unfoldable pub pre_evaluated_push :
      Bool → Instruction E → Evaluated → Instruction E × List AsmError
  unfolding pre_stored
  pre_evaluated_push push0 i (value v) =
      let i' = record i { arg_no_labels = true } in
      pre_stored i' (assign_push_arg push0 i' v.int true)
  pre_evaluated_push push0 i unassigned_label = (i, [])
  pre_evaluated_push push0 i (failure e) = (record i { arg_no_labels = true }, evaluation e ∷ [])

  -- #bytes always has an argument expression; `none` is the nil that the evaluator panics on.
  unfoldable pub pre_arg :
      Bool → Evaluator E → Instruction E → Option E → Instruction E × List AsmError
  unfolding pre_evaluated_bytes pre_evaluated_push initial_size
  pre_arg push0 eval i none = (if is_bytes i.op then record i { arg_no_labels = true } else i, [])
  pre_arg push0 eval i (some e) =
      if is_bytes i.op
      then pre_evaluated_bytes (record i { arg_no_labels = true }) (eval none e)
      else (if is_push i.op
          then pre_evaluated_push push0 (record i { data_size = initial_size i.explicit_size })
              (eval none e)
          else (i, []))

  unfoldable pub pre_evaluate_args :
      Bool → Evaluator E → List (Elem E) → List (Elem E) × List AsmError
  unfolding pre_arg
  pre_evaluate_args push0 eval [] = ([], [])
  pre_evaluate_args push0 eval (inst i ∷ elems) =
      let (j, e) = pre_arg push0 eval i i.arg in
      let (rest, es) = pre_evaluate_args push0 eval elems in (inst j ∷ rest, e ++ es)
  pre_evaluate_args push0 eval (section_start s pc ∷ elems) =
      let (rest, es) = pre_evaluate_args push0 eval elems in (section_start s pc ∷ rest, es)
  pre_evaluate_args push0 eval (section_end s pc ∷ elems) =
      let (rest, es) = pre_evaluate_args push0 eval elems in (section_end s pc ∷ rest, es)
