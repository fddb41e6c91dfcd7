-- ===== src/Stack/Check.antt =====
-- internal/stack/stack.go: checkComment, which compares a stack comment with the symbolic stack and
-- applies its names, and CheckComment. A comment is `none` where the Go slice is nil.
use geas.Prelude.{
  ℕ, suc, Bool, true, false, ◌&&◌, ◌||◌, not, Option, none, some, List, [], ◌∷◌, String, ltb, ◌==◌,
  nat_eq, string_eq, if◌then◌else◌, Map, empty, insert, length, get_or, take, set, is_some,
}
use geas.Set.{no_keys, add, includes}
use geas.Stack.Names.{Unicode, read_item, strip_wildcard}
use geas.Stack.Defs.{
  Stack, StackError, comment_underflow, comment_depth, same_value, differs, renames, set_name,
  get_name, peek,
}

-- The variables of the loop beside the stack.
pub record Checking : Type 0 where
  pub subject : Stack
  pub first_pos : Map ℕ (ℕ × String)
  pub naming_error : Option StackError

-- `if namingError == nil { namingError = e }`
abbrev pub keep_first : Option StackError → Option StackError → Option StackError
keep_first none e = e
keep_first (some e) _ = some e

abbrev when_error : Bool → StackError → Option StackError
when_error true e = some e
when_error false e = none

unfoldable pub holds : List ℕ → ℕ → Bool
holds [] a = false
holds (x ∷ xs) a = x == a || holds xs a

abbrev pub text_or_empty : Option String → String
text_or_empty none = ""
text_or_empty (some s) = s

-- The name of the position that position `i` copies: from the comment, if it lists that position.
unfoldable pub source_name : Unicode → List String → Stack → ℕ → ℕ → String
source_name u comment s item src =
    if ltb src (length comment)
    then (read_item u (get_or comment src "")).0
    else text_or_empty (s.item_to_name item)

-- Splitting a copy: the item that position `i` holds from here on.
unfoldable pub split_at : ℕ → Stack → Stack × ℕ
split_at i s =
    let item = suc s.counter in
    (
      record s {
        counter = item;
        stack = set s.stack i item;
        op_new_items = add item s.op_new_items;
      },
      item,
    )

unfoldable pub split_copy : Unicode → List String → ℕ → String → Bool → ℕ → Stack → Stack × ℕ
split_copy u comment i name explicit item s = elim (s.op_copy_pos i) [
  | none ↦ (s, item)
  | some src ↦
      if explicit && not (name == source_name u comment s item src) then split_at i s else (s, item)
]

-- One value on several positions must have one name in a comment.
check_same : ℕ → String → ℕ → Checking → Checking
check_same i name item c = elim (c.first_pos item) [
  | none ↦ record c { first_pos = insert item (i, name) c.first_pos }
  | some (pos, first) ↦ record c {
    naming_error =
        keep_first c.naming_error (when_error (not (first == name)) (same_value pos i first name));
  }
]

-- The name belongs to another item that is still on the stack.
unfoldable pub is_taken : String → ℕ → Stack → Bool
is_taken name item s = elim (s.name_to_item name) [
  | none ↦ false
  | some held_by ↦
      not (held_by == item)
      && (not (includes s.op_new_items item)
          && (not (text_or_empty (s.item_to_name item) == name) && holds s.stack held_by))
]

-- The name is new, and the item has a confirmed one already.
unfoldable pub is_rename : String → Bool → ℕ → Stack → Bool
is_rename name explicit item s =
    not explicit
    && (not (includes s.op_new_items item)
        && (not (is_some (s.name_to_item name)) && includes s.confirmed_names item))

unfoldable pub rename_item : String → ℕ → Stack → Stack
rename_item name item s =
    let s' = set_name item name s in record s' { confirmed_names = add item s'.confirmed_names }

-- The loop's body for position `i`, once the stack item there is known.
unfoldable pub check_item : Unicode → List String → ℕ → String → Bool → ℕ → Checking → Checking
unfolding check_same
check_item u comment i name explicit item₀ c =
    let (s, item) = split_copy u comment i name explicit item₀ c.subject in
    let c₁ = check_same i name item (record c { subject = s }) in
    let e₂ =
      keep_first c₁.naming_error
        (when_error (is_taken name item s) (differs i name (get_name s item))) in
    let e₃ = keep_first e₂ (
      when_error (is_rename name explicit item s)
        (renames (text_or_empty (s.item_to_name item)) name)) in
    record c₁ { subject = rename_item name item s; naming_error = e₃ }

-- How the loop ends: at the end of the comment or by `break`, or by the early return.
pub data Ended : Type 0 where
  finished : Checking → Ended
  returned : Stack → StackError → Ended

-- `stackItem, ok := s.peek(i)`, and what the loop does if there is no such item: with inferred
-- inputs it breaks off, as deeper items cannot be verified.
abbrev pub with_peeked : ℕ → Checking → Stack × Option ℕ → (ℕ → Checking → Ended) → Ended
with_peeked listed c (s, none) next =
    if s.inferred
    then finished (record c { subject = s })
    else returned s (comment_underflow (length s.stack) listed)
with_peeked listed c (s, some item) next = next item (record c { subject = s })

unfoldable pub check_loop : Unicode → List String → List String → ℕ → Checking → Ended
check_loop u comment [] i c = finished c
check_loop u comment (text ∷ rest) i c =
    let name = (read_item u text).0 in
    let explicit = (read_item u text).1 in
    let next = λ (item : ℕ) (d : Checking).
      check_loop u comment rest (suc i) (check_item u comment i name explicit item d) in
    with_peeked (length comment) c (peek i c.subject) next

-- The depth of a label comment is checked at the end; the naming error comes second.
check_depth : Bool → Bool → List String → Ended → Stack × Option StackError
check_depth wild allow_elide comment (returned s e) = (s, some e)
check_depth wild allow_elide comment (finished c) =
    if (not wild && not allow_elide) && ltb (length comment) (length c.subject.stack)
    then (
      record (c.subject) { stack = take (length comment) c.subject.stack },
      some (comment_depth (length c.subject.stack) (length comment)),
    )
    else (c.subject, c.naming_error)

abbrev pub start_check : Stack → Checking
start_check s = record { subject = s; first_pos = empty; naming_error = none }

unfoldable pub check_listed :
    Unicode → Bool → List String → Bool → Stack → Stack × Option StackError
unfolding check_depth
check_listed u allow_elide comment wild s =
    check_depth wild allow_elide comment
      (check_loop u comment comment 0 (start_check (record s { wildcard = wild })))

-- checkComment
unfoldable pub run_check : Unicode → Option (List String) → Bool → Stack → Stack × Option StackError
run_check u none allow_elide s = (s, none)
run_check u (some comment) allow_elide s =
    check_listed u allow_elide (strip_wildcard comment).0 (strip_wildcard comment).1 s

-- CheckComment, for the comment of a label.
unfoldable pub check_comment : Unicode → Option (List String) → Stack → Stack × Option StackError
check_comment u comment s =
    run_check u comment false (record s { op_new_items = no_keys; op_copy_pos = empty })
