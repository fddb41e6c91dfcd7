-- ===== src/Disasm.antt =====
-- disasm/disassembler.go: bytecode as text. `evm` is the instruction set that SetTarget or
-- setDefaults has stored; strings.ToLower is the parameter `to_lower`; the output is one text.
-- printPush and printImmediate are each in two parts: which item of the output stands at the start
-- of the code, with the number of operand bytes, and how it is printed.
pub mod Reassemble
pub mod Invalid
mod Tests
use Prim.Native.String.{◌++◌ as append}
use geas.Prelude.{
  ℕ, zero, suc, ◌+◌, ◌-◌, ◌*◌, ◌/◌, ◌%◌, ◌^◌, Bool, true, false, not, ◌&&◌, ◌||◌, Option, none,
  some, List, [], ◌∷◌, ◌++◌, String, ltb, ◌==◌, nat_eq, if◌then◌else◌, length, take, drop,
}
use geas.Prelude.Text.{hex_bytes, hex_number, with_0x}
use geas.Evm.Op.{Op}
use geas.Evm.Defs.{InstructionSet}
use geas.Evm.Immediate.{validate_immediate, decode_immediate}
use geas.Evm.InstructionSet.{op_by_code}
use geas.Evm.Effect.{push_size, decimal}
use geas.Lzint.Literal.{is_odd_length}

pub record Disassembler : Type 0 where
  pub evm : InstructionSet
  pub uppercase : Bool
  pub show_pc : Bool
  pub pc_labels : Bool
  pub no_blanks : Bool

pub data Item : Type 0 where
  invalid : ℕ → Item
  plain : Op → Item
  push : Op → List ℕ → Item
  truncated : List ℕ → Item
  bad_immediate : Op → ℕ → Item
  immediate : Op → List ℕ → Item

-- printPush at an opcode `b` that `rest` follows.
unfoldable pub decode_push : Op → ℕ → List ℕ → Item × ℕ
decode_push o b rest =
    if push_size o == 0
    then (plain o, 0)
    else (if ltb (length rest) (push_size o)
        then (truncated (b ∷ rest), length rest)
        else (push o (take (push_size o) rest), length (take (push_size o) rest)))

-- printImmediate
unfoldable pub decode_with_immediate : Op → ℕ → List ℕ → Item × ℕ
decode_with_immediate o b [] = (truncated (b ∷ []), 0)
decode_with_immediate o b (imm ∷ rest) =
    if validate_immediate o imm
    then (immediate o (decode_immediate o imm), 1)
    else (bad_immediate o b, 0)

unfoldable pub decode_op : Option Op → ℕ → List ℕ → Item × ℕ
unfolding decode_push decode_with_immediate
decode_op none b rest = (invalid b, 0)
decode_op (some o) b rest =
    if o.push
    then decode_push o b rest
    else (if o.has_immediate then decode_with_immediate o b rest else (plain o, 0))

-- The body of the loop: the item at an opcode, and how far it reaches past the opcode.
unfoldable pub decode_item : InstructionSet → ℕ → List ℕ → Item × ℕ
unfolding decode_op
decode_item is b rest = decode_op (op_by_code is b) b rest

-- The loop, without its printing. Each round takes a byte at least, so the number of bytes is enough
-- fuel.
unfoldable pub decode_loop : InstructionSet → ℕ → List ℕ → List Item
decode_loop is zero bytecode = []
decode_loop is (suc fuel) [] = []
decode_loop is (suc fuel) (b ∷ rest) =
    (decode_item is b rest).0 ∷ decode_loop is fuel (drop (decode_item is b rest).1 rest)

unfoldable pub decode_all : InstructionSet → List ℕ → List Item
unfolding decode_loop
decode_all is bytecode = decode_loop is (length bytecode) bytecode

unfoldable pub digits_of_pc : ℕ → ℕ
digits_of_pc codesize =
    if ltb codesize 65535
    then 2
    else if ltb codesize 16777215
    then 3
    else if ltb codesize 4294967295
    then 4
    else 8

-- The last `n` bytes of the PC.
pc_bytes : ℕ → ℕ → List ℕ
pc_bytes zero pc = []
pc_bytes (suc n) pc = pc_bytes n (pc / 256) ++ (pc % 256) ∷ []

-- A label has an even number of digits.
even_hex : String → String
even_hex s = if is_odd_length s then String.◌∷◌ "0" s else s

is_jump_dest : Option Op → Bool
is_jump_dest none = false
is_jump_dest (some o) = o.jump_dest

unfoldable pub print_args : List ℕ → String
print_args [] = ""
print_args (n ∷ []) = decimal n
print_args (n ∷ (m ∷ ns)) = append (decimal n) (append ", " (print_args (m ∷ ns)))

unfoldable pub print_invalid : ℕ → String
print_invalid b = append "#bytes " (append (with_0x (hex_number b)) "\n")

blank : Bool → Op → Option Op → String
blank no_blanks prev none = "\n"
blank no_blanks prev (some next) =
    if not no_blanks && (prev.jump || (next.jump_dest || prev.term)) then "\n\n" else "\n"

-- newline
unfoldable pub newline : Bool → Option Op → Option Op → String
unfolding blank
newline no_blanks none next = ""
newline no_blanks (some prev) next = blank no_blanks prev next

module _ (to_lower : String → String) (d : Disassembler) where
  unfoldable pub print_op : Op → String
  print_op o = if d.uppercase then o.name else to_lower o.name

  unfoldable pub print_prefix : ℕ → ℕ → Option Op → String
  unfolding pc_bytes even_hex is_jump_dest
  print_prefix digits pc o =
      if d.show_pc
      then append (with_0x (hex_bytes (pc_bytes digits pc))) ": "
      else (if d.pc_labels
          then append
              (if is_jump_dest o then append (with_0x (even_hex (hex_number pc))) ":\n" else "")
              "    "
          else "")

  unfoldable pub print_item : Item → String
  unfolding print_op print_args print_invalid
  print_item (invalid b) = print_invalid b
  print_item (plain o) = print_op o
  print_item (push o data_bytes) = append (print_op o) (append " " (with_0x (hex_bytes data_bytes)))
  print_item (truncated bs) = append "#bytes " (with_0x (hex_bytes bs))
  print_item (bad_immediate o b) =
      append "#bytes " (append (with_0x (hex_number b)) (append "   ; invalid " o.name))
  print_item (immediate o args) = append (print_op o) (append "[" (append (print_args args) "]"))

  -- The loop of Disassemble, from the PC on, after the instruction `prev`.
  print_loop : ℕ → ℕ → ℕ → Option Op → List ℕ → String
  unfolding newline print_prefix print_item
  print_loop digits zero pc prev bytecode = newline d.no_blanks prev none
  print_loop digits (suc fuel) pc prev [] = newline d.no_blanks prev none
  print_loop digits (suc fuel) pc prev (b ∷ rest) =
      let o = op_by_code d.evm b in
      append (newline d.no_blanks prev o) (
        append (print_prefix digits pc o) (
          append (print_item (decode_item d.evm b rest).0) (
            print_loop digits fuel (pc + (decode_item d.evm b rest).1 + 1) o
              (drop (decode_item d.evm b rest).1 rest))))

  unfoldable pub disassemble : List ℕ → String
  unfolding print_loop digits_of_pc
  disassemble bytecode =
      print_loop (digits_of_pc (length bytecode)) (length bytecode) 0 none bytecode
