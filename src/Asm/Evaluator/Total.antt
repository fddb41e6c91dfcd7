-- ===== src/Asm/Evaluator/Total.antt =====
-- What bounds an evaluation: the macros that are not entered yet, the nesting of the calls of
-- instruction macros, and the size of the expression.
pub mod Ops
pub mod Builtins
pub mod Calls
pub mod Steps
pub mod Eval
use geas.Prelude.{
  ℕ, zero, suc, ◌+◌, ◌-◌, ◌*◌, ◌≡◌, ◌<◌, ◌≤◌, refl, inl, inr, Bool, true, false, none, ◌||◌, List,
  [], ◌∷◌, ◌==◌, nat_eq, nat_beq_iff, nat_beq, length, if◌then◌else◌, All, Bool-cases, arith,
  String,
}
use geas.Ast.{
  ArithOp, arith_minus, Expr, literal, label_ref, variable, macro_call, binary, unary, group, Exprs,
  no_args, arg, args_list,
}
use geas.Asm.Evaluator.Defs.{
  M, State, Result, Failure, error, panic, out_of_fuel, no_return, no_memory, ok, fail, then_do,
  restore, Section, section, MacroArgs, no_macro_args, macro_args,
}
use geas.Asm.Evaluator.Builtins.{Services, member}
use geas.Asm.Evaluator.{remove}

-- It ends with a value or an error, and in_stack is as given; or in a file that assemble() compiles
-- and whose compiler does not return, or in a left shift that math/big cannot do.
abbrev pub Ends : {A : Type 0} → Services → List ℕ → Result A → Type 0
Ends services stack (ok a s) = s.in_stack ≡ stack
Ends services stack (fail (error e) s) = s.in_stack ≡ stack
Ends services stack (fail panic s) = ⊥
Ends services stack (fail out_of_fuel s) = ⊥
Ends services stack (fail (no_return file) s) = services.compile_file file ≡ none
Ends services stack (fail (no_memory a n) s) = services.can_shift a n ≡ false

abbrev mutual
  pub size : Expr → ℕ
  size (literal text v is_string) = 1
  size (label_ref ident dotted) = 1
  size (variable ident) = 1
  size (macro_call call ident builtin args) = suc (sizes args)
  size (binary op l r) = suc (size l + size r)
  size (unary op e) = suc (size e)
  size (group e) = suc (size e)

  pub sizes : Exprs → ℕ
  sizes no_args = 0
  sizes (arg e es) = size e + sizes es

-- The only unary operation is minus.
abbrev mutual
  pub IsWellFormed : Expr → Type 0
  IsWellFormed (literal text v is_string) = Unit
  IsWellFormed (label_ref ident dotted) = Unit
  IsWellFormed (variable ident) = Unit
  IsWellFormed (macro_call call ident builtin args) = AreWellFormed args
  IsWellFormed (binary op l r) = IsWellFormed l × IsWellFormed r
  IsWellFormed (unary op e) = (op ≡ arith_minus) × IsWellFormed e
  IsWellFormed (group e) = IsWellFormed e

  pub AreWellFormed : Exprs → Type 0
  AreWellFormed no_args = Unit
  AreWellFormed (arg e es) = IsWellFormed e × AreWellFormed es

abbrev pub Fits : ℕ → Expr → Type 0
Fits most e = IsWellFormed e × (size e ≤ most)

-- A call of an instruction macro gives as many arguments as there are parameters.
abbrev mutual
  pub FitsArgs : ℕ → MacroArgs → Type 0
  FitsArgs most no_macro_args = Unit
  FitsArgs most (macro_args params args callsite) =
      (length args ≡ length params) × All (Fits most) args × FitsSection most callsite

  pub FitsSection : ℕ → Section → Type 0
  FitsSection most (section doc args) = FitsArgs most args

abbrev mutual
  pub depth : MacroArgs → ℕ
  depth no_macro_args = 0
  depth (macro_args params args callsite) = suc (section_depth callsite)

  pub section_depth : Section → ℕ
  section_depth (section doc args) = depth args

-- How many of the numbers are not in the stack.
abbrev pub remaining : List ℕ → List ℕ → ℕ
remaining [] stack = 0
remaining (i ∷ ids) stack = (if member i stack then 0 else 1) + remaining ids stack

abbrev pub measure : List ℕ → ℕ → List ℕ → MacroArgs → Expr → ℕ
measure ids most stack args e = (remaining ids stack + depth args) * suc most + size e

pub remaining_le : (ids stack : List ℕ) (i : ℕ) → remaining ids (i ∷ stack) ≤ remaining ids stack
unfolding member
remaining_le [] stack i = omega arith
remaining_le (j ∷ ids) stack i = ground (arith, remaining_le ids stack i)

pub remaining_lt :
    (ids stack : List ℕ) (i : ℕ)
    → member i ids ≡ true
    → member i stack ≡ false
    → remaining ids (i ∷ stack) < remaining ids stack
unfolding member
remaining_lt [] stack i h n = cc
remaining_lt (j ∷ ids) stack i h n =
    ground
      (arith, remaining_lt ids stack i, remaining_le ids stack i, nat_beq_iff i j, nat_beq_iff j i)

remove_absent : (i : ℕ) (stack : List ℕ) → member i stack ≡ false → remove i stack ≡ stack
unfolding remove member
remove_absent i [] h = refl
remove_absent i (j ∷ stack) h = ground (arith, remove_absent i stack)

pub remove_entered :
    (i : ℕ) (stack : List ℕ) → member i stack ≡ false → remove i (i ∷ stack) ≡ stack
unfolding remove
remove_entered i stack h = rw ((nat_beq_iff i i).1 refl, remove_absent i stack h) refl

-- A smaller rank outweighs the size of an expression.
pub rank_lt : (most a b n m : ℕ) → a < b → n ≤ most → a * suc most + n < b * suc most + m
rank_lt most a b n m h k = grind arith

pub then_do-Ends :
    {A B : Type 0} (services : Services) (stack : List ℕ) (r : Result A) (f : A → M B)
    → Ends services stack r
    → ((a : A) (s : State) → s.in_stack ≡ stack → Ends services stack (f a s))
    → Ends services stack (then_do r f)
then_do-Ends services stack (ok a s) f h g = g a s h
then_do-Ends services stack (fail (error e) s) f h g = h
then_do-Ends services stack (fail panic s) f h g = h
then_do-Ends services stack (fail out_of_fuel s) f h g = h
then_do-Ends services stack (fail (no_return file) s) f h g = h
then_do-Ends services stack (fail (no_memory a n) s) f h g = h
