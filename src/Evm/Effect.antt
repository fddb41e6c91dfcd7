-- ===== src/Evm/Effect.antt =====
-- internal/evm/ops.go: the symbolic stack effect of an instruction (StackIn, StackOut), the names
-- v0, v1, … that the effects of DUPN, SWAPN and EXCHANGE use, and the size of a PUSH.
-- A slice of `stackwords` ends at 235 at most, so `take` never falls short.
pub mod Shape
pub mod Decimal
use Prim.Native.Char.{code}
use Prim.Native.String.{◌++◌ as append, slice, len}
use text.Mathlib.Text.{starts_with}
use geas.Prelude.{
  ℕ, zero, suc, ◌+◌, ◌-◌, ◌*◌, ◌/◌, ◌%◌, max, Option, none, some, List, [], ◌∷◌, String, ltb, leb,
  ◌&&◌, map, if◌then◌else◌, take, set, get_or,
}
use geas.Evm.Op.{Op}
use geas.Evm.Immediate.{
  Kind, dupn, swapn, exchange, other, kind, decode_immediate_single, decode_immediate_pair,
}

digit : ℕ → String
digit d = get_or ("0" ∷ "1" ∷ "2" ∷ "3" ∷ "4" ∷ "5" ∷ "6" ∷ "7" ∷ "8" ∷ "9" ∷ []) d ""

decimal_digits : ℕ → ℕ → String
unfolding digit
decimal_digits zero n = ""
decimal_digits (suc fuel) n =
    let front = decimal_digits fuel (n / 10) in
    if ltb n 10 then digit n else append front (digit (n % 10))

-- `%d` of a number: a number below 10 ^ (n + 1) is printed by n + 1 rounds.
unfoldable pub decimal : ℕ → String
unfolding decimal_digits
decimal n = decimal_digits (suc n) n

count_up : ℕ → ℕ → List ℕ
count_up zero start = []
count_up (suc n) start = start ∷ count_up n (suc start)

unfoldable pub stackwords : List String
unfolding count_up decimal
stackwords = map (λ i. append "v" (decimal i)) (count_up 255 0)

-- `stk[i], stk[j] = stk[j], stk[i]`
unfoldable pub swap_at : List String → ℕ → ℕ → List String
swap_at stk i j = set (set stk i (get_or stk j "")) j (get_or stk i "")

unfoldable pub dupn_stack_in : ℕ → List String
dupn_stack_in imm = take (decode_immediate_single imm) stackwords

unfoldable pub dupn_stack_out : ℕ → List String
dupn_stack_out imm =
    let depth = decode_immediate_single imm in
    get_or stackwords (depth - 1) "" ∷ take depth stackwords

unfoldable pub swapn_stack_in : ℕ → List String
swapn_stack_in imm = take (decode_immediate_single imm) stackwords

unfoldable pub swapn_stack_out : ℕ → List String
swapn_stack_out imm =
    let depth = decode_immediate_single imm in swap_at (take depth stackwords) 0 (depth - 1)

unfoldable pub exchange_stack_in : ℕ → List String
exchange_stack_in imm = let (n, m) = decode_immediate_pair imm in take (max n m) stackwords

unfoldable pub exchange_stack_out : ℕ → List String
exchange_stack_out imm =
    let (n, m) = decode_immediate_pair imm in swap_at (take (max n m) stackwords) (n - 1) (m - 1)

effect_in : Kind → List String → ℕ → List String
unfolding dupn_stack_in swapn_stack_in exchange_stack_in
effect_in exchange ins imm = exchange_stack_in imm
effect_in swapn ins imm = swapn_stack_in imm
effect_in dupn ins imm = dupn_stack_in imm
effect_in other ins imm = ins

unfoldable pub stack_in : Op → ℕ → List String
unfolding effect_in
stack_in o imm = effect_in (kind o) o.inputs imm

effect_out : Kind → List String → ℕ → List String
unfolding dupn_stack_out swapn_stack_out exchange_stack_out
effect_out exchange outs imm = exchange_stack_out imm
effect_out swapn outs imm = swapn_stack_out imm
effect_out dupn outs imm = dupn_stack_out imm
effect_out other outs imm = outs

unfoldable pub stack_out : Op → ℕ → List String
unfolding effect_out
stack_out o imm = effect_out (kind o) o.outputs imm

-- strconv.Atoi on a text with no sign: 0 unless it is a run of digits.
atoi_loop : ℕ → String → ℕ
atoi_loop acc String.[] = acc
atoi_loop acc (String.◌∷◌ c s) =
    let rest = atoi_loop (acc * 10 + (code c - b'0')) s in
    if leb b'0' (code c) && leb (code c) b'9' then rest else 0

unfoldable pub atoi : String → ℕ
unfolding atoi_loop
atoi s = atoi_loop 0 s

-- strings.TrimPrefix
unfoldable pub trim_prefix : String → String → String
trim_prefix s prefix = if starts_with s prefix then slice s (len prefix) (len s) else s

unfoldable pub push_size : Op → ℕ
unfolding atoi trim_prefix
push_size o = atoi (trim_prefix o.name "PUSH")
