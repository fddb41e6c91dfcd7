-- ===== src/Asm/Evaluator/Builtins.antt =====
-- asm/evaluator_builtins.go: the builtin macros. Each is given the evaluation of its arguments,
-- `eval`. Hash functions, the checks of selectors and addresses, the conversions between texts and
-- bytes, path.Clean of a path relative to a file, the compiler that assemble() starts, which may
-- recurse without bound, and what math/big can shift are the parameters that Services lists.
use Prim.Native.Char.{code}
use text.Mathlib.Text.{starts_with}
use geas.Prelude.{
  ℕ, ◌+◌, ◌/◌, Bool, false, not, ◌&&◌, ◌||◌, Option, none, some, List, [], ◌∷◌, ◌++◌, map, String,
  leb, ◌==◌, nat_eq, string_eq, if◌then◌else◌, take,
}
use geas.Prelude.Int.{ℤ, pos, magnitude}
use geas.Prelude.Big.{abs}
use geas.Lzint
use geas.Lzint.{Value, from_int, from_bytes, byte_len, integer_bit_len, bit_len, bytes, BytesResult}
use geas.Ast.{info, Expr, literal, Exprs, no_args, arg}
use geas.Asm.Evaluator.Defs.{
  M, ok, fail, no_return, ◌>>=◌, ◌>>◌, return, raise, Env, EvalError, argument_count, no_bytes,
  selector_literal, selector_invalid, address_literal, address_invalid, address_checksum,
  escapes_root, deprecated_macro, from_subcompiler,
}

-- `compile_file` is the compiler that has the loader's file system and depth limit, the fork and the
-- overrides: the bytecode and the messages, or `none` where it does not return. That it is so for a
-- file that assembles itself is not derived here. `can_shift` is whether big.Int.Lsh returns.
pub record Services : Type 0 where
  pub keccak256 : List ℕ → List ℕ
  pub sha256 : List ℕ → List ℕ
  pub is_selector : String → Bool
  pub address_of : String → Option (List ℕ)
  pub valid_checksum : String → Bool
  pub text_bytes : String → List ℕ
  pub bytes_text : List ℕ → String
  pub clean_join : String → String → String
  pub compile_file : String → Option (List ℕ × List ℕ)
  pub can_shift : ℤ → ℕ → Bool

pub data Builtin : Type 0 where
  len_macro abs_macro intbits_macro bytelen_macro bitlen_macro : Builtin
  address_macro selector_macro keccak256_macro sha256_macro assemble_macro : Builtin

unfoldable pub builtin_macros : String → Option Builtin
builtin_macros name =
    if name == "len"
    then some len_macro
    else if name == "abs"
    then some abs_macro
    else if name == "intbits"
    then some intbits_macro
    else if name == "bytelen"
    then some bytelen_macro
    else if name == "bitlen"
    then some bitlen_macro
    else if name == "address"
    then some address_macro
    else if name == "selector"
    then some selector_macro
    else if name == "keccak256"
    then some keccak256_macro
    else if name == "sha256"
    then some sha256_macro
    else if name == "assemble"
    then some assemble_macro
    else none

-- checkArgCount for one argument, and the argument.
unfoldable pub one_arg : String → Exprs → M Expr
one_arg ident (arg e no_args) = return e
one_arg ident _ = raise (argument_count ident 1)

unfoldable pub as_bytes : BytesResult → M (List ℕ)
as_bytes (Lzint.ok bs) = return bs
as_bytes (Lzint.err e) = raise (no_bytes e)

-- The text of a literal argument.
unfoldable pub literal_text : EvalError → Expr → M String
literal_text e (literal text v is_string) = return text
literal_text e _ = raise e

unfoldable pub member : ℕ → List ℕ → Bool
member n [] = false
member n (m ∷ ms) = n == m || member n ms

-- The warning is given once for each call.
unfoldable pub warn_deprecated : ℕ → String → String → M (Unit {0})
unfolding member
warn_deprecated call name replacement s = ok tt (
    if member call s.deprecation then s else record s {
      deprecation = call ∷ s.deprecation;
      messages = s.messages ++ deprecated_macro call name replacement ∷ [];
    })

unfoldable pub is_checksum_address : String → Bool
is_checksum_address String.[] = false
is_checksum_address (String.◌∷◌ c s) =
    (leb b'A' (code c) && leb (code c) b'F') || is_checksum_address s

module _ (sv : Services) where
  -- loader.ResolveRelative
  unfoldable pub resolve_relative : String → String → M String
  resolve_relative base filename =
      let res = sv.clean_join base filename in
      if res == ".." || starts_with res "../" then raise escapes_root else return res

  unfoldable pub store_compiled : ℕ → String → String → Option (List ℕ × List ℕ) → M Value
  store_compiled doc filename file none s = fail (no_return file) s
  store_compiled doc filename file (some (bytecode, messages)) s =
      ok (from_bytes bytecode) (record s {
        messages = s.messages ++ map from_subcompiler messages;
        assembled = λ d f.
            if d == doc && f == filename then some (from_bytes bytecode) else s.assembled d f;
      })

  unfoldable pub store_assembled : ℕ → String → String → M Value
  unfolding store_compiled
  store_assembled doc filename file = store_compiled doc filename file (sv.compile_file file)

  unfoldable pub assemble_new : Env → String → Option Value → M Value
  unfolding resolve_relative store_assembled
  assemble_new env filename (some v) = return v
  assemble_new env filename none = do
    file ← resolve_relative (info env.doc).file filename
    store_assembled (info env.doc).id filename file

  unfoldable pub assemble_file : Env → String → M Value
  unfolding assemble_new
  assemble_file env filename s =
      assemble_new env filename (s.assembled (info env.doc).id filename) s

  unfoldable pub selector_of : String → M Value
  selector_of text =
      if sv.is_selector text
      then return (from_bytes (take 4 (sv.keccak256 (sv.text_bytes text))))
      else raise selector_invalid

  unfoldable pub address_value : String → Option (List ℕ) → M Value
  unfolding is_checksum_address
  address_value text none = raise address_invalid
  address_value text (some addr) =
      if is_checksum_address text && not (sv.valid_checksum text)
      then raise address_checksum
      else return (from_bytes addr)

  module _ (eval : Env → Expr → M Value) where
    -- The value of the only argument.
    unfoldable pub eval_arg : Env → String → Exprs → M Value
    unfolding one_arg
    eval_arg env ident args = do e ← one_arg ident args; eval env e

    -- evalAsBytes of the only argument.
    unfoldable pub eval_bytes : Env → String → Exprs → M (List ℕ)
    unfolding eval_arg as_bytes
    eval_bytes env ident args = do v ← eval_arg env ident args; as_bytes (bytes v)

    unfoldable pub run_builtin : Builtin → Env → ℕ → String → Exprs → M Value
    unfolding eval_arg eval_bytes one_arg literal_text warn_deprecated assemble_file selector_of
        address_value
    run_builtin len_macro env call ident args = do
      v ← eval_arg env ident args
      return (from_int (pos (byte_len v)))
    run_builtin intbits_macro env call ident args = do
      v ← eval_arg env ident args
      return (from_int (pos (integer_bit_len v)))
    run_builtin bytelen_macro env call ident args = do
      warn_deprecated call "bytelen" "len"
      v ← eval_arg env ident args
      return (from_int (pos ((bit_len (magnitude v.int) + 7) / 8)))
    run_builtin bitlen_macro env call ident args = do
      warn_deprecated call "bitlen" "intbits"
      v ← eval_arg env ident args
      return (from_int (pos (integer_bit_len v)))
    run_builtin abs_macro env call ident args = do
      v ← eval_arg env ident args
      return (from_int (abs v.int))
    run_builtin sha256_macro env call ident args = do
      b ← eval_bytes env ident args
      return (from_bytes (sv.sha256 b))
    run_builtin keccak256_macro env call ident args = do
      b ← eval_bytes env ident args
      return (from_bytes (sv.keccak256 b))
    run_builtin selector_macro env call ident args = do
      e ← one_arg ident args
      text ← literal_text selector_literal e
      selector_of text
    run_builtin address_macro env call ident args = do
      e ← one_arg ident args
      text ← literal_text address_literal e
      address_value text (sv.address_of text)
    run_builtin assemble_macro env call ident args = do
      b ← eval_bytes env ident args
      assemble_file env (sv.bytes_text b)
