-- ===== src/Stack/Names.antt =====
-- internal/stack/stack.go (assignName, isIdentifier) and internal/stack/stackcomment.go (wildcards):
-- how one item of a stack comment is read. The tables of package unicode are a parameter.
use Prim.Native.Char.{Char, code}
use geas.Prelude.{
  Bool, true, false, ◌&&◌, ◌||◌, Option, none, some, List, [], ◌∷◌, String, ◌==◌, nat_eq, string_eq,
  if◌then◌else◌,
}

-- unicode.IsLetter and unicode.IsDigit.
pub record Unicode : Type 0 where
  pub is_letter : Char → Bool
  pub is_digit : Char → Bool

abbrev pub wildcard_name : String
wildcard_name = ".."

unfoldable pub has_wildcard : List String → Bool
has_wildcard [] = false
has_wildcard (x ∷ []) = x == wildcard_name
has_wildcard (x ∷ (y ∷ xs)) = has_wildcard (y ∷ xs)

unfoldable pub but_last : List String → List String
but_last [] = []
but_last (x ∷ []) = []
but_last (x ∷ (y ∷ xs)) = x ∷ but_last (y ∷ xs)

unfoldable pub strip_wildcard : List String → List String × Bool
strip_wildcard items = if has_wildcard items then (but_last items, true) else (items, false)

-- What stands before and after the first '='.
split_eq : String → Option (String × String)
split_eq String.[] = none
split_eq (String.◌∷◌ c s) =
    let further = split_eq s in
    if code c == b'='
    then some (String.[], s)
    else elim further [ none ↦ none | some (before, after) ↦ some (String.◌∷◌ c before, after) ]

-- `item[eq+1] == '='`, and `eq == len(item)-1`.
bad_after : String → Bool
bad_after String.[] = true
bad_after (String.◌∷◌ c s) = code c == b'='

-- The last byte before '=' is one of '!', '<', '>', or there is none.
bad_before : String → Bool
bad_before String.[] = true
bad_before (String.◌∷◌ c String.[]) = code c == b'!' || (code c == b'<' || code c == b'>')
bad_before (String.◌∷◌ c (String.◌∷◌ d s)) = bad_before (String.◌∷◌ d s)

module _ (u : Unicode) where
  identifier_rest : String → Bool
  identifier_rest String.[] = true
  identifier_rest (String.◌∷◌ c s) =
      (code c == b'_' || (u.is_letter c || u.is_digit c)) && identifier_rest s

  pub is_identifier : String → Bool
  unfolding identifier_rest
  is_identifier String.[] = false
  is_identifier (String.◌∷◌ c s) = (code c == b'_' || u.is_letter c) && identifier_rest s

  lhs_of : String × String → Option String
  unfolding is_identifier
  lhs_of (before, after) =
      if bad_after after || bad_before before
      then none
      else (if is_identifier before then some before else none)

  unfoldable pub assign_name : String → Option String
  unfolding lhs_of split_eq bad_after bad_before
  assign_name item = elim (split_eq item) [ none ↦ none | some parts ↦ lhs_of parts ]

-- The name that an item gives, and whether it is given by assignment.
unfoldable pub read_item : Unicode → String → String × Bool
read_item u item = elim (assign_name u item) [ none ↦ (item, false) | some lhs ↦ (lhs, true) ]
