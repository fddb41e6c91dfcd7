-- ===== src/Stack/Tests.antt =====
-- Instructions applied to small stacks. The letters and digits are those of ASCII.
use Prim.Native.Char.{Char, code}
use geas.Prelude.{
  All, ◌≡◌, ◌≢◌, refl, Bool, true, ◌&&◌, ◌||◌, some, none, [], ◌∷◌, leb, string_eq, arith,
}
use geas.Evm.Op.{Op, op}
use geas.Evm.Oplist.{oplist}
use geas.Evm.Defs.{opm, has_duplicate}
use geas.Stack.Names.{Unicode}
use geas.Stack.Defs.{Stack, Effect, op_underflow, new_stack}
use geas.Stack.Comment.{comment, in_expr, leave, parse_comment, parse_elem, string_of}
use geas.Stack.Comment.Total.{Ends, parse_comment-Ends}
use geas.Stack.Comment.Normal.{IsItem, IsNormal, parse_comment-IsNormal}
use geas.Stack.Apply.{apply, done, panicked}
use geas.Stack.Apply.Inputs.{IsExact}
use geas.Stack.Apply.Moves.{apply_underflow}
use geas.Stack.Apply.Total.{instruction, apply-ne-panicked}

abbrev is_ascii_letter : Char → Bool
is_ascii_letter c =
    (leb b'a' (code c) && leb (code c) b'z') || (leb b'A' (code c) && leb (code c) b'Z')

abbrev is_ascii_digit : Char → Bool
is_ascii_digit c = leb b'0' (code c) && leb (code c) b'9'

abbrev ascii : Unicode
ascii = record { is_letter = is_ascii_letter; is_digit = is_ascii_digit }

-- SWAP1 on a stack of three items.
abbrev swap1 : Effect
swap1 = record { stack_in = λ _. "a" ∷ "b" ∷ []; stack_out = λ _. "b" ∷ "a" ∷ [] }

abbrev three_items : Stack
three_items = record new_stack { counter = 3; stack = 3 ∷ 2 ∷ 1 ∷ [] }

abbrev one_item : Stack
one_item = record new_stack { counter = 1; stack = 1 ∷ [] }

one_item-IsExact : IsExact one_item
one_item-IsExact = record { no_wildcard = refl; not_inferred = refl }

apply_underflow_example :
    (s : Stack) × (apply ascii swap1 0 none one_item ≡ done s (some (op_underflow 2 1)))
    × (s.stack ≡ 1 ∷ [])
unfolding has_duplicate
apply_underflow_example =
    apply_underflow ascii swap1 0 one_item one_item-IsExact refl (ground arith)

abbrev dupn_op : Op
dupn_op = record (op "DUPN" 0xe6 [] []) { has_immediate = true }

apply-ne-panicked_example :
    apply ascii (instruction dupn_op) 3 (some ("x" ∷ "y" ∷ [])) one_item ≢ panicked "v0"
unfolding opm oplist has_duplicate
apply-ne-panicked_example =
    apply-ne-panicked ascii "DUPN" dupn_op 3 (some ("x" ∷ "y" ∷ [])) one_item "v0" refl

parse_comment-Ends_example : Ends (parse_comment "[a, (b]")
parse_comment-Ends_example = parse_comment-Ends "[a, (b]"

three_names-parses : parse_comment "[a, b + 1, ...]" ≡ comment ("a" ∷ "b+1" ∷ ".." ∷ [])
unfolding parse_comment parse_elem in_expr leave string_of
three_names-parses = refl

parse_comment-IsNormal_example :
    All IsItem ("a" ∷ "b+1" ∷ ".." ∷ []) × IsNormal ("a" ∷ "b+1" ∷ ".." ∷ [])
parse_comment-IsNormal_example =
    parse_comment-IsNormal "[a, b + 1, ...]" ("a" ∷ "b+1" ∷ ".." ∷ []) three_names-parses
