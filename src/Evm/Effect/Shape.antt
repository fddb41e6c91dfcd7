-- ===== src/Evm/Effect/Shape.antt =====
-- No instruction names an input twice, whatever its immediate byte.
use geas.Prelude.{
  ℕ, zero, suc, List, [], ◌∷◌, ◌≡◌, refl, String, false, some, arith, take, string_eq,
}
use geas.Evm.Op.{Op}
use geas.Evm.Immediate.{Kind, dupn, swapn, exchange, other, kind, decode_immediate_single}
use geas.Evm.Defs.{contains, has_duplicate, opm}
use geas.Evm.Defs.Table.{opm-distinct}
use geas.Evm.Effect.{stackwords, stack_in, effect_in}

contains-take :
    (n : ℕ) (xs : List String) (s : String) → contains xs s ≡ false → contains (take n xs) s ≡ false
unfolding contains
contains-take zero xs s h = refl
contains-take (suc n) [] s h = refl
contains-take (suc n) (x ∷ xs) s h = ground (arith, contains-take n xs s)

has_duplicate-take :
    (n : ℕ) (xs : List String) → has_duplicate xs ≡ false → has_duplicate (take n xs) ≡ false
unfolding has_duplicate
has_duplicate-take zero xs h = refl
has_duplicate-take (suc n) [] h = refl
has_duplicate-take (suc n) (x ∷ xs) h =
    ground (arith, contains-take n xs x, has_duplicate-take n xs)

has_duplicate-stackwords : has_duplicate stackwords ≡ false
unfolding has_duplicate stackwords
has_duplicate-stackwords = refl

first_words : (n : ℕ) → has_duplicate (take n stackwords) ≡ false
first_words n = has_duplicate-take n stackwords has_duplicate-stackwords

effect_in-distinct :
    (k : Kind) (ins : List String) (imm : ℕ)
    → has_duplicate ins ≡ false
    → has_duplicate (effect_in k ins imm) ≡ false
unfolding effect_in
effect_in-distinct dupn ins imm h = first_words (decode_immediate_single imm)
effect_in-distinct swapn ins imm h = first_words (decode_immediate_single imm)
effect_in-distinct exchange ins imm h = first_words _
effect_in-distinct other ins imm h = h

-- No instruction of the table, whatever its immediate byte, names an input twice.
pub stack_in-distinct :
    (n : String) (o : Op) (imm : ℕ) → opm n ≡ some o → has_duplicate (stack_in o imm) ≡ false
unfolding stack_in
stack_in-distinct n o imm h = effect_in-distinct (kind o) o.inputs imm (opm-distinct n o h)
