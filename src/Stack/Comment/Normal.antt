-- ===== src/Stack/Comment/Normal.antt =====
-- The items that ParseComment returns.
use Prim.Native.Char.{Char, code}
use mathlib.Core.Path.{subst}
use geas.Prelude.{
  ℕ, zero, suc, ◌≡◌, refl, ◌≢◌, Bool, true, false, not, ◌&&◌, List, [], ◌∷◌, ◌++◌, String, arith,
  nat_eq, ◌==◌, Bool-cases, All, inl, inr, string_eq, eq_iff,
}
use geas.Stack.Names.{wildcard_name}
use geas.Stack.Comment.{
  Parsed, comment, is_blank, skip_space, string_of, Round, go_on, stop_here, give_up, elem_round,
  leave, Elem, elem, broken, with_round, parse_elem, is_wild, Wildcards, normalized, misplaced,
  push_front, normalize, after_item, with_elem, add_item, items_loop, finish, text_length, start,
  parse_comment,
}

-- No blank and no double quote.
abbrev is_item_char : Char → Bool
is_item_char c = not (is_blank c) && not (code c == b'"')

abbrev AreClean : List Char → Type 0
AreClean = All (λ c. is_item_char c ≡ true)

AreClean-snoc :
    (cs : List Char) (c : Char) → AreClean cs → is_item_char c ≡ true → AreClean (cs ++ c ∷ [])
AreClean-snoc [] c h k = (k, tt)
AreClean-snoc (d ∷ cs) c h k = (h.0, AreClean-snoc cs c h.1 k)

abbrev GoesOn : Round → Type 0
GoesOn (go_on nest cs) = AreClean cs
GoesOn _ = Unit

elem_round-GoesOn :
    (nest : List ℕ) (cs : List Char) (c : Char) → AreClean cs → GoesOn (elem_round nest cs c)
unfolding elem_round leave
elem_round-GoesOn [] cs c h = ground (arith, AreClean-snoc cs c)
elem_round-GoesOn (n ∷ []) cs c h = ground (arith, AreClean-snoc cs c)
elem_round-GoesOn (n ∷ (m ∷ nest)) cs c h = ground (arith, AreClean-snoc cs c)

abbrev IsCleanElem : Elem → Type 0
IsCleanElem (elem cs nest rest) = AreClean cs
IsCleanElem (broken e) = Unit

with_round-IsCleanElem :
    (cs : List Char) (s : String) (r : Round) (next : List ℕ → List Char → Elem)
    → AreClean cs
    → GoesOn r
    → ((nest : List ℕ) (ds : List Char) → AreClean ds → IsCleanElem (next nest ds))
    → IsCleanElem (with_round cs s r next)
with_round-IsCleanElem cs s (go_on nest ds) next h g rest = rest nest ds g
with_round-IsCleanElem cs s (stop_here nest) next h g rest = h
with_round-IsCleanElem cs s (give_up e) next h g rest = tt

parse_elem-IsCleanElem :
    (s : String) (nest : List ℕ) (cs : List Char) → AreClean cs → IsCleanElem (parse_elem nest cs s)
unfolding parse_elem
parse_elem-IsCleanElem String.[] nest cs h = tt
parse_elem-IsCleanElem (String.◌∷◌ c s) nest cs h =
    with_round-IsCleanElem cs _ (elem_round nest cs c) _ h (elem_round-GoesOn nest cs c h)
      λ n ds k. parse_elem-IsCleanElem s n ds k

-- A text that is not empty and has neither blanks nor double quotes.
pub record IsItem (s : String) : Type 0 where
  pub first : Char
  pub others : List Char
  pub spells : s ≡ string_of (first ∷ others)
  pub clean : AreClean (first ∷ others)

-- Only the last item is a wildcard, and then it is the one of two dots.
abbrev pub IsNormal : List String → Type 0
IsNormal [] = Unit
IsNormal (x ∷ []) = x ≢ "..."
IsNormal (x ∷ (y ∷ xs)) = (is_wild x ≡ false) × IsNormal (y ∷ xs)

add_item-All :
    (items : List String) (cs : List Char)
    → All IsItem items
    → AreClean cs
    → All IsItem (add_item items cs)
add_item-All items [] all h = all
add_item-All items (c ∷ cs) all h = snoc items all
  where
    snoc : (xs : List String) → All IsItem xs → All IsItem (xs ++ string_of (c ∷ cs) ∷ [])
    snoc [] a = (record { first = c; others = cs; spells = refl; clean = h }, tt)
    snoc (x ∷ xs) a = (a.0, snoc xs a.1)

abbrev AreNormal : Wildcards → Type 0
AreNormal (normalized xs) = All IsItem xs × IsNormal xs
AreNormal misplaced = Unit

wildcard_name-IsItem : IsItem wildcard_name
unfolding string_of
wildcard_name-IsItem = record {
  first = ".";
  others = "." ∷ [];
  spells = refl;
  clean = (refl, (refl, tt));
}

dots_ne : wildcard_name ≢ "..."
dots_ne e = ground (arith, eq_iff wildcard_name "...")

not_dots : (x : String) → is_wild x ≡ false → x ≢ "..."
not_dots x h e = ground (arith, eq_iff x "...")

IsNormal-push :
    (x : String) (xs : List String) → is_wild x ≡ false → IsNormal xs → IsNormal (x ∷ xs)
IsNormal-push x [] h n = not_dots x h
IsNormal-push x (y ∷ xs) h n = (h, n)

push_front-AreNormal :
    (x : String) (w : Wildcards)
    → IsItem x
    → is_wild x ≡ false
    → AreNormal w
    → AreNormal (push_front x w)
push_front-AreNormal x misplaced i h n = tt
push_front-AreNormal x (normalized xs) i h n = ((i, n.0), IsNormal-push x xs h n.1)

normalize-AreNormal : (xs : List String) → All IsItem xs → AreNormal (normalize xs)
unfolding normalize
normalize-AreNormal [] all = (tt, tt)
normalize-AreNormal (x ∷ []) all = elim (Bool-cases (is_wild x)) [
  | inl e ↦ rw e ((wildcard_name-IsItem, tt), λ q. dots_ne q)
  | inr e ↦ rw e (all, not_dots x e)
]
normalize-AreNormal (x ∷ (y ∷ xs)) all =
    let rest = normalize-AreNormal (y ∷ xs) all.1 in
    elim (Bool-cases (is_wild x)) [
      | inl e ↦ rw e tt
      | inr e ↦ rw e (push_front-AreNormal x _ all.0 e rest)
    ]

abbrev IsGood : Parsed → Type 0
IsGood (comment items) = All IsItem items × IsNormal items
IsGood _ = Unit

finish-IsGood : (items : List String) (w : Wildcards) → AreNormal w → IsGood (finish items w)
finish-IsGood items (normalized xs) n = n
finish-IsGood items misplaced n = tt

after_item-IsGood :
    (items : List String) (s : String) (next : String → Parsed)
    → All IsItem items
    → ((t : String) → IsGood (next t))
    → IsGood (after_item items s next)
after_item-IsGood items String.[] next all h = h _
after_item-IsGood items (String.◌∷◌ c s) next all h = elim (Bool-cases (code c == b',')) [
  | inl e ↦ rw e (h s)
  | inr e ↦ elim (Bool-cases (code c == b']')) [
    | inl f ↦ rw (e, f) (finish-IsGood items _ (normalize-AreNormal items all))
    | inr f ↦ rw (e, f) (h (String.◌∷◌ c s))
  ]
]

with_elem-IsGood :
    (items : List String) (e : Elem) (next : List String → List ℕ → String → Parsed)
    → All IsItem items
    → IsCleanElem e
    → ((xs : List String) (nest : List ℕ) (rest : String)
        → All IsItem xs
        → IsGood (next xs nest rest))
    → IsGood (with_elem items e next)
with_elem-IsGood items (broken e) next all h rest = tt
with_elem-IsGood items (elem cs nest s) next all h rest =
    rest _ nest s (add_item-All items cs all h)

items_loop-IsGood :
    (fuel : ℕ) (items : List String) (nest : List ℕ) (s : String)
    → All IsItem items
    → IsGood (items_loop fuel items nest s)
unfolding items_loop
items_loop-IsGood zero items nest s all = tt
items_loop-IsGood (suc fuel) items nest s all =
    with_elem-IsGood items (parse_elem nest [] (skip_space s)) _ all
      (parse_elem-IsCleanElem (skip_space s) nest [] tt)
      λ xs n rest all'.
        after_item-IsGood xs (skip_space rest) _ all' λ t. items_loop-IsGood fuel xs n t all'

start-IsGood : (s : String) → IsGood (start s)
unfolding start
start-IsGood String.[] = tt
start-IsGood (String.◌∷◌ c s) = elim (Bool-cases (code c == b'[')) [
  | inl e ↦ rw e (items_loop-IsGood (suc (text_length s)) [] (b'[' ∷ []) s tt)
  | inr e ↦ rw e tt
]

Parsed-IsGood : (text : String) → IsGood (parse_comment text)
unfolding parse_comment
Parsed-IsGood text = start-IsGood (skip_space text)

-- The items of a comment that parses are not empty, hold neither blanks nor double quotes, and only
-- the last one may be a wildcard, which is written with two dots.
pub parse_comment-IsNormal :
    (text : String) (items : List String)
    → parse_comment text ≡ comment items
    → All IsItem items × IsNormal items
parse_comment-IsNormal text items h = subst IsGood h (Parsed-IsGood text)
