-- ===== src/StackCheck/Effect/Distinct.antt =====
-- Repetitions in what dedup returns. A renamed name has a number sign.
use Prim.Native.Char.{code}
use Prim.Native.String.{◌++◌ as append}
use text.Mathlib.TextLemmas.{nil-append, cons-append, append_cancel_left}
use geas.Prelude.{
  ℕ, zero, suc, ◌<◌, ◌≡◌, ◌≢◌, refl, sym, ap, ◌∙◌, inl, inr, Bool, true, false, List, [], ◌∷◌,
  String, ◌==◌, string_eq, nat_eq, eq_iff, if◌then◌else◌, Bool-cases, All, arith, ◌||◌,
}
use geas.Evm.Defs.{has_duplicate, contains}
use geas.Evm.Effect.{decimal}
use geas.Evm.Effect.Decimal.{decimal_injective}
use geas.StackCheck.Effect.{numbered, renamed, count_one, dedup_loop, dedup, effect_from_stack}

abbrev pub has_number_sign : String → Bool
has_number_sign String.[] = false
has_number_sign (String.◌∷◌ c s) = (code c == b'#') || has_number_sign s

-- What stands before the first number sign, and from it on.
before : String → String
before String.[] = String.[]
before (String.◌∷◌ c s) =
    let rest = before s in if code c == b'#' then String.[] else String.◌∷◌ c rest

from_sign : String → String
from_sign String.[] = String.[]
from_sign (String.◌∷◌ c s) =
    let rest = from_sign s in if code c == b'#' then String.◌∷◌ c s else rest

before-append :
    (name t : String) → has_number_sign name ≡ false → before (append name (append "#" t)) ≡ name
unfolding before
before-append String.[] t h = rw (nil-append (append "#" t), cons-append "#" "" t) refl
before-append (String.◌∷◌ c s) t h =
    rw (cons-append c s (append "#" t)) (ground (arith, before-append s t))

from_sign-append :
    (name t : String)
    → has_number_sign name ≡ false
    → from_sign (append name (append "#" t)) ≡ append "#" t
unfolding from_sign
from_sign-append String.[] t h = rw (nil-append (append "#" t), cons-append "#" "" t) refl
from_sign-append (String.◌∷◌ c s) t h =
    rw (cons-append c s (append "#" t)) (ground (arith, from_sign-append s t))

before_self : (name : String) → has_number_sign name ≡ false → before name ≡ name
unfolding before
before_self String.[] h = refl
before_self (String.◌∷◌ c s) h = ground (arith, before_self s)

from_sign_self : (name : String) → has_number_sign name ≡ false → from_sign name ≡ ""
unfolding from_sign
from_sign_self String.[] h = refl
from_sign_self (String.◌∷◌ c s) h = ground (arith, from_sign_self s)

no_sign-ne : (t : String) → "" ≢ append "#" t
no_sign-ne t h = cc (h ∙ cons-append "#" "" t)

numbered-ne :
    (name other : String) (n : ℕ)
    → has_number_sign name ≡ false
    → has_number_sign other ≡ false
    → name ≢ numbered other n
unfolding numbered
numbered-ne name other n h k e =
    no_sign-ne (decimal n)
      (sym (from_sign_self name h) ∙ ap from_sign e ∙ from_sign-append other (decimal n) k)

renamed_injective :
    (name other : String) (m n : ℕ)
    → has_number_sign name ≡ false
    → has_number_sign other ≡ false
    → renamed name m ≡ renamed other n
    → (name ≡ other) × (m ≡ n)
unfolding renamed
renamed_injective name other zero zero h k e = (e, refl)
renamed_injective name other zero (suc n) h k e = absurd (numbered-ne name other (suc n) h k e)
renamed_injective name other (suc m) zero h k e =
    absurd (numbered-ne other name (suc m) k h (sym e))
renamed_injective name other (suc m) (suc n) h k e =
    unfold numbered in
    (
      sym (before-append name (decimal (suc m)) h)
          ∙ ap before e
          ∙ before-append other (decimal (suc n)) k,
      decimal_injective (suc m) (suc n) (
          append_cancel_left "#" (decimal (suc m)) (decimal (suc n)) (
            sym (from_sign-append name (decimal (suc m)) h)
            ∙ ap from_sign e
            ∙ from_sign-append other (decimal (suc n)) k)),
    )

abbrev pub AreUnsigned : List String → Type 0
AreUnsigned = All (λ name. has_number_sign name ≡ false)

-- A number that was given before is not given again.
contains-dedup_loop :
    (seen : String → ℕ) (names : List String) (name : String) (n : ℕ)
    → AreUnsigned names
    → has_number_sign name ≡ false
    → n < seen name
    → contains (dedup_loop seen names) (renamed name n) ≡ false
unfolding contains dedup_loop
contains-dedup_loop seen [] name n all h less = refl
contains-dedup_loop seen (x ∷ names) name n all h less =
    elim (Bool-cases (renamed x (seen x) == renamed name n)) [
      | inl e ↦
          let (same, number) =
            renamed_injective x name (seen x) n all.0 h
              ((eq_iff (renamed x (seen x)) (renamed name n)).0 e) in
          absurd (omega (arith, ap seen same))
      | inr e ↦ rw e (
          contains-dedup_loop (count_one x seen) names name n all.1 h
            (ground (arith, eq_iff x name, less)))
    ]

has_duplicate-dedup_loop :
    (seen : String → ℕ) (names : List String)
    → AreUnsigned names
    → has_duplicate (dedup_loop seen names) ≡ false
unfolding has_duplicate dedup_loop
has_duplicate-dedup_loop seen [] all = refl
has_duplicate-dedup_loop seen (x ∷ names) all =
    rw
      (contains-dedup_loop (count_one x seen) names x (seen x) all.1 all.0
        (ground (arith, eq_iff x x)))
      (has_duplicate-dedup_loop (count_one x seen) names all.1)

-- The inputs of an inferred effect are distinct, as Apply wants them, if no inferred name has a
-- number sign.
pub effect_from_stack-distinct :
    (inferred items : List String)
    → AreUnsigned inferred
    → has_duplicate (effect_from_stack inferred items).stack_in ≡ false
unfolding effect_from_stack dedup
effect_from_stack-distinct inferred items all = has_duplicate-dedup_loop (λ _. 0) inferred all

-- A name that looks like a renamed one leaves a repetition: for every name without a number sign,
-- dedup of name#1, name, name has name#1 twice.
pub has_duplicate-dedup :
    (name : String)
    → has_number_sign name ≡ false
    → has_duplicate (dedup (numbered name 1 ∷ name ∷ name ∷ [])) ≡ true
unfolding has_duplicate dedup
has_duplicate-dedup name h =
    let first : (numbered name 1 == name) ≡ false =
      not_eq (λ e. numbered-ne name name 1 h h (sym e)) in
    let other : (name == numbered name 1) ≡ false = not_eq (numbered-ne name name 1 h h) in
    rw (first, other, eq_self name, eq_self (numbered name 1)) refl
  where
    eq_self : (s : String) → (s == s) ≡ true
    eq_self s = (eq_iff s s).1 refl

    not_eq : {s t : String} → s ≢ t → (s == t) ≡ false
    not_eq {s} {t} ne = elim (Bool-cases (s == t)) [
      | inl e ↦ absurd (ne ((eq_iff s t).0 e))
      | inr e ↦ e
    ]
