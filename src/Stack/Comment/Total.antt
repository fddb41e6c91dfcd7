-- ===== src/Stack/Comment/Total.antt =====
-- How ParseComment ends.
use Prim.Native.Char.{Char, code}
use geas.Prelude.{
  ℕ, zero, suc, ◌≤◌, ◌<◌, ◌≡◌, ◌≢◌, refl, ◌⊎◌, inl, inr, true, false, List, [], ◌∷◌, String, arith,
  nat_eq, ◌==◌, Bool-cases,
}
use geas.Stack.Comment.{
  empty_nest, Parsed, comment, failed, out_of_fuel, is_blank, skip_space, leave, Round, go_on,
  stop_here, give_up, elem_round, Elem, elem, broken, with_round, parse_elem, Wildcards, normalized,
  misplaced, normalize, after_item, with_elem, add_item, items_loop, text_length, parse_comment,
  start, finish,
}

-- The outermost bracket is the one of the comment.
abbrev IsNest : List ℕ → Type 0
IsNest [] = ⊥
IsNest (n ∷ []) = n ≡ b'['
IsNest (n ∷ (m ∷ nest)) = IsNest (m ∷ nest)

abbrev IsRound : Char → Round → Type 0
IsRound c (go_on nest chars) = IsNest nest
IsRound c (stop_here nest) = (code c ≡ b']') ⊎ ((code c ≡ b',') × IsNest nest)
IsRound c (give_up e) = e ≢ empty_nest

elem_round-IsRound :
    (nest : List ℕ) (chars : List Char) (c : Char)
    → IsNest nest
    → IsRound c (elem_round nest chars c)
unfolding elem_round leave
elem_round-IsRound [] chars c h = absurd h
elem_round-IsRound (n ∷ []) chars c h = ground arith
elem_round-IsRound (n ∷ (m ∷ nest)) chars c h = ground arith

abbrev StopsAt : List ℕ → String → Type 0
StopsAt nest String.[] = ⊥
StopsAt nest (String.◌∷◌ c s) = (code c ≡ b']') ⊎ ((code c ≡ b',') × IsNest nest)

abbrev IsElem : String → Elem → Type 0
IsElem s (broken e) = e ≢ empty_nest
IsElem s (elem chars nest rest) = (text_length rest ≤ text_length s) × StopsAt nest rest

IsElem-later : (c : Char) (s : String) (e : Elem) → IsElem s e → IsElem (String.◌∷◌ c s) e
unfolding text_length
IsElem-later c s (broken e) h = h
IsElem-later c s (elem chars nest rest) h = (omega arith, h.1)

with_round-IsElem :
    (chars : List Char) (c : Char) (s : String) (r : Round) (next : List ℕ → List Char → Elem)
    → IsRound c r
    → ((nest : List ℕ) (cs : List Char) → IsNest nest → IsElem s (next nest cs))
    → IsElem (String.◌∷◌ c s) (with_round chars (String.◌∷◌ c s) r next)
unfolding text_length
with_round-IsElem chars c s (go_on nest cs) next h rest =
    IsElem-later c s (next nest cs) (rest nest cs h)
with_round-IsElem chars c s (stop_here nest) next h rest = (omega arith, h)
with_round-IsElem chars c s (give_up e) next h rest = h

parse_elem-IsElem :
    (s : String) (nest : List ℕ) (chars : List Char)
    → IsNest nest
    → IsElem s (parse_elem nest chars s)
unfolding parse_elem
parse_elem-IsElem String.[] nest chars h = λ e. cc
parse_elem-IsElem (String.◌∷◌ c s) nest chars h =
    with_round-IsElem chars c s (elem_round nest chars c) _ (elem_round-IsRound nest chars c h)
      λ n cs k. parse_elem-IsElem s n cs k

-- A result that is neither a panic nor the end of the fuel.
abbrev pub Ends : Parsed → Type 0
Ends (comment items) = Unit
Ends (failed items e) = e ≢ empty_nest
Ends out_of_fuel = ⊥

finish-Ends : (items : List String) (w : Wildcards) → Ends (finish items w)
finish-Ends items (normalized items') = tt
finish-Ends items misplaced = λ e. cc

skip_space-le : (s : String) → text_length (skip_space s) ≤ text_length s
unfolding skip_space text_length
skip_space-le String.[] = omega arith
skip_space-le (String.◌∷◌ c s) = ground (arith, skip_space-le s)

skip_space-stays :
    (c : Char) (s : String) → is_blank c ≡ false → skip_space (String.◌∷◌ c s) ≡ String.◌∷◌ c s
unfolding skip_space
skip_space-stays c s h = rw h refl

after_item-Ends :
    (items : List String) (nest : List ℕ) (rest : String) (again : String → Parsed)
    → StopsAt nest rest
    → ((t : String) → text_length t < text_length rest → IsNest nest → Ends (again t))
    → Ends (after_item items (skip_space rest) again)
after_item-Ends items nest String.[] again h next = absurd h
after_item-Ends items nest (String.◌∷◌ c s) again (inl e) next =
    let no_comma : (code c == b',') ≡ false = ground arith in
    let bracket : (code c == b']') ≡ true = ground arith in
    rw (skip_space-stays c s (ground arith), no_comma, bracket)
      (finish-Ends items (normalize items))
after_item-Ends items nest (String.◌∷◌ c s) again (inr (e, n)) next =
    let comma : (code c == b',') ≡ true = ground arith in
    rw (skip_space-stays c s (ground arith), comma) (next s (unfold text_length in omega arith) n)

with_elem-Ends :
    (items : List String) (s : String) (e : Elem) (next : List String → List ℕ → String → Parsed)
    → IsElem s e
    → ((chars : List Char) (nest : List ℕ) (rest : String)
        → text_length rest ≤ text_length s
        → StopsAt nest rest
        → Ends (next (add_item items chars) nest rest))
    → Ends (with_elem items e next)
with_elem-Ends items s (broken e) next h rest = h
with_elem-Ends items s (elem chars nest t) next h rest = rest chars nest t h.0 h.1

items_loop-Ends :
    (fuel : ℕ) (items : List String) (nest : List ℕ) (s : String)
    → IsNest nest
    → text_length s < fuel
    → Ends (items_loop fuel items nest s)
unfolding items_loop
items_loop-Ends zero items nest s n h = absurd (omega arith)
items_loop-Ends (suc fuel) items nest s n h =
    with_elem-Ends items (skip_space s) (parse_elem nest [] (skip_space s)) _
      (parse_elem-IsElem (skip_space s) nest [] n)
      λ chars nest' rest le stops.
        after_item-Ends (add_item items chars) nest' rest _ stops λ t less n'.
          items_loop-Ends fuel (add_item items chars) nest' t n' (omega (arith, skip_space-le s))

start-Ends : (s : String) → Ends (start s)
unfolding start
start-Ends String.[] = λ e. cc
start-Ends (String.◌∷◌ c s) = elim (Bool-cases (code c == b'[')) [
  | inl e ↦ rw e (items_loop-Ends (suc (text_length s)) [] (b'[' ∷ []) s refl (omega arith))
  | inr e ↦ rw e (λ f. cc)
]

-- ParseComment returns on every text, with items or an error, and the panic of its bracket counter
-- does not arise.
pub parse_comment-Ends : (text : String) → Ends (parse_comment text)
unfolding parse_comment
parse_comment-Ends text = start-Ends (skip_space text)
