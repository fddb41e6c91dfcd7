-- ===== src/Stack/Defs.antt =====
-- internal/stack/stack.go: the symbolic stack and its small operations. The list `stack` has the top
-- first, where the Go slice has it last. Items are numbers from 1 on; Go maps give 0 and "" for a
-- missing key, which is written out where it matters.
use Prim.Native.String.{◌++◌ as append}
use mathlib.Core.List.{reverse}
use geas.Prelude.{
  ℕ, zero, suc, ◌+◌, ◌-◌, Bool, true, false, ◌||◌, Option, none, some, List, [], ◌∷◌, ◌++◌, String,
  ltb, leb, nat_eq, string_eq, if◌then◌else◌, Map, empty, insert, length, get_elem?, get_or, map,
}
use geas.Set.{Set, no_keys, add}
use geas.Evm.Effect.{decimal}
use geas.Stack.Names.{Unicode, read_item, strip_wildcard}

-- The interface Op: input and output items, for an immediate byte.
pub record Effect : Type 0 where
  pub stack_in : ℕ → List String
  pub stack_out : ℕ → List String

pub record Stack : Type 0 where
  pub counter : ℕ
  pub stack : List ℕ
  pub wildcard : Bool
  pub inferred : Bool
  pub inferred_items : List ℕ
  pub name_to_item : Map String ℕ
  pub item_to_name : Map ℕ String
  pub confirmed_names : Set ℕ
  pub op_items : Map String ℕ
  pub op_new_items : Set ℕ
  pub op_copy_pos : Map ℕ ℕ

pub data StackError : Type 0 where
  op_underflow comment_underflow comment_depth : ℕ → ℕ → StackError
  same_value : ℕ → ℕ → String → String → StackError
  differs : ℕ → String → String → StackError
  renames : String → String → StackError

-- The value of New before Init.
abbrev pub new_stack : Stack
new_stack = record {
  counter = 0;
  stack = [];
  wildcard = false;
  inferred = false;
  inferred_items = [];
  name_to_item = empty;
  item_to_name = empty;
  confirmed_names = no_keys;
  op_items = empty;
  op_new_items = no_keys;
  op_copy_pos = empty;
}

unfoldable pub set_inferred : Stack → Stack
set_inferred s = record s { inferred = true }

unfoldable pub push : ℕ → Stack → Stack
push item s = record s { stack = item ∷ s.stack }

unfoldable pub new_item : Stack → ℕ × Stack
new_item s = (suc s.counter, record s { counter = suc s.counter })

unfoldable pub set_name : ℕ → String → Stack → Stack
set_name item name s = record s {
  item_to_name = insert item name s.item_to_name;
  name_to_item = insert name item s.name_to_item;
}

unfoldable pub get_name : Stack → ℕ → String
get_name s item = elim (s.item_to_name item) [ none ↦ append "_" (decimal item) | some name ↦ name ]

-- The loop of growBottom, with the items made so far.
unfoldable pub grow_loop : ℕ → List ℕ → Stack → List ℕ × Stack
grow_loop zero items s = (items, s)
grow_loop (suc n) items s =
    let item = suc s.counter in
    grow_loop n (items ++ item ∷ []) (record s {
      counter = item;
      inferred_items = if s.inferred then s.inferred_items ++ item ∷ [] else s.inferred_items;
    })

unfoldable pub grow_bottom : ℕ → Stack → Stack
unfolding grow_loop
grow_bottom n s =
    let (items, s') = grow_loop n [] s in record s' { stack = s'.stack ++ reverse items }

-- The exported GrowBottom.
unfoldable pub grow_bottom_by : ℕ → Stack → Stack
grow_bottom_by n s = if ltb 0 n then grow_bottom n s else s

-- The shared body of peek and get: `grows` says whether the stack extends itself downward.
unfoldable pub access : Bool → ℕ → Stack → Stack × Option ℕ
access grows i s =
    if leb (length s.stack) i
    then (if grows
        then (let s' = grow_bottom (i + 1 - length s.stack) s in (s', get_elem? s'.stack i))
        else (s, none))
    else (s, get_elem? s.stack i)

unfoldable pub peek : ℕ → Stack → Stack × Option ℕ
unfolding access
peek i s = access s.wildcard i s

unfoldable pub get : ℕ → Stack → Stack × Option ℕ
unfolding access
get i s = access (s.inferred || s.wildcard) i s

unfoldable pub items : Stack → List String
items s = map (get_name s) s.stack

-- `none` is the panic for a stack that is not in inferred mode.
unfoldable pub inferred_inputs : Stack → Option (List String)
inferred_inputs s = if s.inferred then some (map (get_name s) s.inferred_items) else none

confirm_at : Option (List Bool) → ℕ → Bool
confirm_at none i = true
confirm_at (some flags) i = get_or flags i false

is_nil : Option (List Bool) → Bool
is_nil none = true
is_nil (some _) = false

-- A name that Init meets for the first time, or at every position if `confirmed` is given.
init_item : Option (List Bool) → ℕ → String → Stack → Stack
unfolding confirm_at
init_item confirmed i name s =
    let item = suc s.counter in
    let s' = set_name item name (push item (record s { counter = item })) in
    if confirm_at confirmed i
    then record s' { confirmed_names = add item s'.confirmed_names }
    else s'

init_name : Option (List Bool) → ℕ → String → Stack → Stack
unfolding init_item is_nil
init_name confirmed i name s =
    if is_nil confirmed
    then elim (s.name_to_item name) [
      | none ↦ init_item confirmed i name s
      | some item ↦ push item s
    ]
    else init_item confirmed i name s

-- The loop of Init goes from the last name to the first.
unfoldable pub init_names : Unicode → Option (List Bool) → ℕ → List String → Stack → Stack
unfolding init_name
init_names u confirmed i [] s = s
init_names u confirmed i (name ∷ names) s =
    init_name confirmed i (read_item u name).0 (init_names u confirmed (suc i) names s)

unfoldable pub init : Unicode → List String → Option (List Bool) → Stack → Stack
unfolding init_names
init u names confirmed s =
    let (names', wild) = strip_wildcard names in
    init_names u confirmed 0 names' (record s {
      name_to_item = empty;
      item_to_name = empty;
      confirmed_names = no_keys;
      wildcard = wild;
      stack = [];
    })
