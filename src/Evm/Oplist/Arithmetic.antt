-- ===== src/Evm/Oplist/Arithmetic.antt =====
-- internal/evm/ops.go, oplist: arithmetic, comparison and bitwise instructions.
use geas.Prelude.{true, List, [], ◌∷◌}
use geas.Evm.Op.{Op, op}

unfoldable pub arithmetic_ops : List Op
arithmetic_ops =
    (record (op "STOP" 0x0 [] []) { term = true })
    ∷ (op "ADD" 0x1 ("x" ∷ "y" ∷ []) ("x+y" ∷ []))
    ∷ (op "MUL" 0x2 ("x" ∷ "y" ∷ []) ("x*y" ∷ []))
    ∷ (op "SUB" 0x3 ("x" ∷ "y" ∷ []) ("x-y" ∷ []))
    ∷ (op "DIV" 0x4 ("x" ∷ "y" ∷ []) ("x/y" ∷ []))
    ∷ (op "SDIV" 0x5 ("x" ∷ "y" ∷ []) ("x/y" ∷ []))
    ∷ (op "MOD" 0x6 ("x" ∷ "m" ∷ []) ("x%m" ∷ []))
    ∷ (op "SMOD" 0x7 ("x" ∷ "m" ∷ []) ("x%m" ∷ []))
    ∷ (op "ADDMOD" 0x8 ("x" ∷ "y" ∷ "m" ∷ []) ("(x+y)%m" ∷ []))
    ∷ (op "MULMOD" 0x9 ("x" ∷ "y" ∷ "m" ∷ []) ("(x*y)%m" ∷ []))
    ∷ (op "EXP" 0xa ("base" ∷ "exponent" ∷ []) ("base**exponent" ∷ []))
    ∷ (op "SIGNEXTEND" 0xb ("bytes" ∷ "num" ∷ []) ("num_extended" ∷ []))
    ∷ (op "LT" 0x10 ("x" ∷ "y" ∷ []) ("x<y" ∷ []))
    ∷ (op "GT" 0x11 ("x" ∷ "y" ∷ []) ("x>y" ∷ []))
    ∷ (op "SLT" 0x12 ("x" ∷ "y" ∷ []) ("x<y" ∷ []))
    ∷ (op "SGT" 0x13 ("x" ∷ "y" ∷ []) ("x>y" ∷ []))
    ∷ (op "EQ" 0x14 ("x" ∷ "y" ∷ []) ("x==y" ∷ []))
    ∷ (op "ISZERO" 0x15 ("x" ∷ []) ("x==0" ∷ []))
    ∷ (op "AND" 0x16 ("x" ∷ "y" ∷ []) ("x&y" ∷ []))
    ∷ (op "OR" 0x17 ("x" ∷ "y" ∷ []) ("x|y" ∷ []))
    ∷ (op "XOR" 0x18 ("x" ∷ "y" ∷ []) ("x^y" ∷ []))
    ∷ (op "NOT" 0x19 ("x" ∷ []) ("~x" ∷ []))
    ∷ (op "BYTE" 0x1a ("index" ∷ "x" ∷ []) ("x[index]" ∷ []))
    ∷ (op "SHL" 0x1b ("s" ∷ "x" ∷ []) ("x<<s" ∷ []))
    ∷ (op "SHR" 0x1c ("s" ∷ "x" ∷ []) ("x>>s" ∷ []))
    ∷ (op "SAR" 0x1d ("s" ∷ "x" ∷ []) ("x>>s" ∷ []))
    ∷ (op "CLZ" 0x1e ("x" ∷ []) ("count" ∷ []))
    ∷ []
