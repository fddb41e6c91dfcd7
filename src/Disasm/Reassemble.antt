-- ===== src/Disasm/Reassemble.antt =====
-- The instructions that the disassembler prints, compiled again: the operands are evaluated, sized
-- and written by the assembler's functions.
pub mod Sizes
pub mod Items
pub mod Ready
use geas.Prelude.{
  ℕ, zero, suc, ◌+◌, ◌≤◌, ◌<◌, ◌≡◌, refl, ap, sym, ◌∙◌, true, none, some, List, [], ◌∷◌, ◌++◌,
  String, arith, length, take, drop, take-append-drop, All, length-drop, nat_eq, string_eq,
}
use mathlib.Core.Path.{subst, ap₂}
use geas.Evm.Op.{Op}
use geas.Evm.Defs.{InstructionSet}
use geas.Evm.InstructionSet.{supports_push0}
use geas.Evm.InstructionSet.Consistent.{IsConsistent}
use geas.Lzint.Bytes.{IsByte}
use geas.Asm.Program.{Instruction, Elem, inst, instructions}
use geas.Asm.Arguments.{AsmError, pre_evaluate_args}
use geas.Asm.Output.{Output, emitted}
use geas.Asm.Output.Encoding.{EncodesAll}
use geas.Asm.Backend.{written, compile_expanded}
use geas.Disasm.{Item, decode_item, decode_loop, decode_all}
use geas.Disasm.Reassemble.Items.{IsNamed, IsValid, printed, literal_eval, Reads, decode_item-Reads}
use geas.Disasm.Reassemble.Ready.{IsReady, compile_expanded-IsReady}

abbrev elems_of : List (Instruction String) → List (Elem String) → List (Elem String)
elems_of [] rest = rest
elems_of (i ∷ insts) rest = inst i ∷ elems_of insts rest

-- The program of the printed instructions.
abbrev pub printed_all : List Item → List (Elem String)
printed_all [] = []
printed_all (i ∷ items) = elems_of (printed i) (printed_all items)

All-drop : (n : ℕ) (xs : List ℕ) → All IsByte xs → All IsByte (drop n xs)
All-drop zero xs h = h
All-drop (suc n) [] h = tt
All-drop (suc n) (x ∷ xs) h = All-drop n xs h.1

-- The program is evaluated without an error before the layout, and its encodings are the bytes.
record IsRead (is : InstructionSet) (elems : List (Elem String)) (bs : List ℕ) : Type 0 where
  result : List (Elem String)
  evaluates : pre_evaluate_args (supports_push0 is) literal_eval elems ≡ (result, [])
  is_ready : All (IsReady is literal_eval) (instructions result)
  encodes : EncodesAll is (instructions result) bs

nothing-IsRead : (is : InstructionSet) → IsRead is [] []
unfolding pre_evaluate_args
nothing-IsRead is = record {
  result = [];
  evaluates = refl;
  is_ready = unfold instructions in tt;
  encodes = unfold instructions in refl;
}

cons-IsRead :
    (is : InstructionSet) (b n : ℕ) (rest : List ℕ) (item : Item) (elems : List (Elem String))
    → IsValid item
    → Reads is b rest (item, n)
    → IsRead is elems (drop n rest)
    → IsRead is (elems_of (printed item) elems) (b ∷ rest)
unfolding pre_evaluate_args
cons-IsRead is b n rest item elems valid reads later =
    let (i, j, prints, pre, quiet, label, enc) = reads valid in
    rw prints (record {
      result = inst j ∷ later.result;
      evaluates = rw (pre, later.evaluates) refl;
      is_ready = unfold instructions in ((quiet, label), later.is_ready);
      encodes =
          unfold instructions in
          (
            b ∷ take n rest,
            drop n rest,
            sym (ap (◌∷◌ b) (take-append-drop n rest)),
            enc,
            later.encodes,
          );
    })

decode_loop-IsRead :
    (is : InstructionSet) (fuel : ℕ) (bytecode : List ℕ)
    → IsConsistent is
    → ((c : ℕ) (o : Op) → is.by_code c ≡ some o → IsNamed o)
    → All IsByte bytecode
    → All IsValid (decode_loop is fuel bytecode)
    → length bytecode ≤ fuel
    → IsRead is (printed_all (decode_loop is fuel bytecode)) bytecode
unfolding decode_loop
decode_loop-IsRead is zero [] c facts h valid le = nothing-IsRead is
decode_loop-IsRead is zero (b ∷ rest) c facts h valid le = absurd (omega arith)
decode_loop-IsRead is (suc fuel) [] c facts h valid le = nothing-IsRead is
decode_loop-IsRead is (suc fuel) (b ∷ rest) c facts h valid le =
    let n = (decode_item is b rest).1 in
    cons-IsRead is b n rest (decode_item is b rest).0 _ valid.0
      (decode_item-Reads is b rest c facts h.1)
      (decode_loop-IsRead is fuel (drop n rest) c facts (All-drop n rest h.1) valid.1
        (omega (arith, length-drop n rest)))

-- With an instruction set whose maps are inverse to each other and whose names are those of the
-- table, a bytecode that is disassembled without an invalid item is what the assembler makes of the
-- printed instructions: their literals are parsed and evaluated, and stored in the sizes that their
-- names say, the layout ends, and generateOutput neither panics nor reports an error.
pub compile_expanded-decode_all :
    (is : InstructionSet) (bytecode : List ℕ)
    → IsConsistent is
    → ((c : ℕ) (o : Op) → is.by_code c ≡ some o → IsNamed o)
    → All IsByte bytecode
    → All IsValid (decode_all is bytecode)
    → (out : Output) × (compile_expanded is literal_eval (printed_all (decode_all is bytecode))
        ≡ written (emitted out))
      × (out.bytes ≡ bytecode)
      × (out.unknown ≡ [])
unfolding decode_all
compile_expanded-decode_all is bytecode c facts h valid =
    let read = decode_loop-IsRead is (length bytecode) bytecode c facts h valid (omega arith) in
    compile_expanded-IsReady is literal_eval _ read.result bytecode read.evaluates read.is_ready
      read.encodes
