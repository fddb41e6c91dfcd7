-- ===== src/Stack/Comment.antt =====
-- internal/stack/stackcomment.go: ParseComment. A stream is the text that is left, and a rune is a
-- character.
pub mod Total
pub mod Normal
use Prim.Native.Char.{Char, code}
use geas.Prelude.{
  ℕ, zero, suc, ◌+◌, ◌<◌, Bool, true, false, not, ◌||◌, ◌&&◌, Option, none, some, List, [], ◌∷◌,
  ◌++◌, String, ltb, ◌==◌, nat_eq, string_eq, if◌then◌else◌, length,
}
use geas.Stack.Names.{wildcard_name}

-- `empty_nest` is the panic of leave.
pub data CommentError : Type 0 where
  not_stack_comment empty_comment incomplete_comment empty_item double_quote : CommentError
  wildcard_not_last empty_nest : CommentError
  nesting : ℕ → ℕ → ℕ → CommentError

-- `failed` also holds the items that were read before the error.
pub data Parsed : Type 0 where
  comment : List String → Parsed
  failed : List String → CommentError → Parsed
  out_of_fuel : Parsed

abbrev pub is_blank : Char → Bool
is_blank c = code c == b' ' || code c == 9

-- skipSpace; what peek sees after it is the head of the result.
unfoldable pub skip_space : String → String
skip_space String.[] = String.[]
skip_space (String.◌∷◌ c s) = if is_blank c then skip_space s else String.◌∷◌ c s

-- The bracket that closes an opening one. Nothing else is ever entered.
unfoldable pub closing : ℕ → ℕ
closing opening = if opening == b'(' then b')' else if opening == b'{' then b'}' else b']'

pub data Left : Type 0 where
  outside : List ℕ → Left
  mismatch : CommentError → Left

unfoldable pub leave : ℕ → List ℕ → Left
unfolding closing
leave c [] = mismatch empty_nest
leave c (opening ∷ nest) =
    if c == closing opening then outside nest else mismatch (nesting opening (closing opening) c)

unfoldable pub in_expr : List ℕ → Bool
in_expr nest = ltb 1 (length nest)

unfoldable pub string_of : List Char → String
string_of [] = String.[]
string_of (c ∷ cs) = String.◌∷◌ c (string_of cs)

-- What one round of parseElem does with a character: it goes on, with or without the character, or
-- returns before the character.
pub data Round : Type 0 where
  go_on : List ℕ → List Char → Round
  stop_here : List ℕ → Round
  give_up : CommentError → Round

abbrev is_empty : List Char → Bool
is_empty [] = true
is_empty (_ ∷ _) = false

after_leave : Char → List Char → Left → Round
after_leave c chars (mismatch e) = give_up e
after_leave c chars (outside []) = stop_here []
after_leave c chars (outside (n ∷ nest)) = go_on (n ∷ nest) (chars ++ c ∷ [])

unfoldable pub elem_round : List ℕ → List Char → Char → Round
unfolding after_leave
elem_round nest chars c =
    if is_blank c
    then go_on nest chars
    else (if code c == b'[' || (code c == b'(' || code c == b'{')
        then go_on (code c ∷ nest) (chars ++ c ∷ [])
        else (if code c == b']' || (code c == b')' || code c == b'}')
            then after_leave c chars (leave (code c) nest)
            else (if code c == b',' && not (in_expr nest)
                then (if is_empty chars then give_up empty_item else stop_here nest)
                else (if code c == b'"'
                    then give_up double_quote
                    else go_on nest (chars ++ c ∷ [])))))

pub data Elem : Type 0 where
  elem : List Char → List ℕ → String → Elem
  broken : CommentError → Elem

abbrev pub with_round : List Char → String → Round → (List ℕ → List Char → Elem) → Elem
with_round chars s (go_on nest chars') next = next nest chars'
with_round chars s (stop_here nest) next = elem chars nest s
with_round chars s (give_up e) next = broken e

-- parseElem: the characters of the item, the nesting, and the text that is left.
unfoldable pub parse_elem : List ℕ → List Char → String → Elem
unfolding elem_round
parse_elem nest chars String.[] = broken incomplete_comment
parse_elem nest chars (String.◌∷◌ c s) =
    let next = λ (n : List ℕ) (cs : List Char). parse_elem n cs s in
    with_round chars (String.◌∷◌ c s) (elem_round nest chars c) next

abbrev pub is_wild : String → Bool
is_wild s = s == ".." || s == "..."

pub data Wildcards : Type 0 where
  normalized : List String → Wildcards
  misplaced : Wildcards

abbrev pub push_front : String → Wildcards → Wildcards
push_front x misplaced = misplaced
push_front x (normalized xs) = normalized (x ∷ xs)

-- The loop over the items once the closing bracket is read.
unfoldable pub normalize : List String → Wildcards
normalize [] = normalized []
normalize (x ∷ []) = normalized ((if is_wild x then wildcard_name else x) ∷ [])
normalize (x ∷ (y ∷ xs)) =
    let rest = push_front x (normalize (y ∷ xs)) in if is_wild x then misplaced else rest

abbrev pub finish : List String → Wildcards → Parsed
finish items (normalized items') = comment items'
finish items misplaced = failed items wildcard_not_last

abbrev pub add_item : List String → List Char → List String
add_item items [] = items
add_item items (c ∷ cs) = items ++ string_of (c ∷ cs) ∷ []

-- What follows an item: the next item after a comma, or the end.
abbrev pub after_item : List String → String → (String → Parsed) → Parsed
after_item items String.[] next = next String.[]
after_item items (String.◌∷◌ c s) next =
    let same = next (String.◌∷◌ c s) in
    let later = next s in
    if code c == b','
    then later
    else (if code c == b']' then finish items (normalize items) else same)

abbrev pub with_elem : List String → Elem → (List String → List ℕ → String → Parsed) → Parsed
with_elem items (broken e) next = failed items e
with_elem items (elem chars nest s) next = next (add_item items chars) nest s

-- The loop of ParseComment. Each round reads a comma at least.
unfoldable pub items_loop : ℕ → List String → List ℕ → String → Parsed
unfolding normalize
items_loop zero items nest s = out_of_fuel
items_loop (suc fuel) items nest s =
    let next = λ (items' : List String) (nest' : List ℕ) (rest : String).
      let again = λ (t : String). items_loop fuel items' nest' t in
      after_item items' (skip_space rest) again in
    with_elem items (parse_elem nest [] (skip_space s)) next

unfoldable pub text_length : String → ℕ
text_length String.[] = 0
text_length (String.◌∷◌ c s) = suc (text_length s)

unfoldable pub start : String → Parsed
unfolding items_loop text_length
start String.[] = failed [] empty_comment
start (String.◌∷◌ c s) =
    let items = items_loop (suc (text_length s)) [] (b'[' ∷ []) s in
    if code c == b'[' then items else failed [] not_stack_comment

unfoldable pub parse_comment : String → Parsed
unfolding start skip_space
parse_comment text = start (skip_space text)
