-- ===== src/Evm/Oplist/Swap.antt =====
-- internal/evm/ops.go, oplist: SWAPx.
use geas.Prelude.{List, [], ◌∷◌}
use geas.Evm.Op.{Op, op}

unfoldable pub swap_ops : List Op
swap_ops =
    (op "SWAP1" 0x90 ("x1" ∷ "x2" ∷ []) ("x2" ∷ "x1" ∷ []))
    ∷ (op "SWAP2" 0x91 ("x1" ∷ "x2" ∷ "x3" ∷ []) ("x3" ∷ "x2" ∷ "x1" ∷ []))
    ∷ (op "SWAP3" 0x92 ("x1" ∷ "x2" ∷ "x3" ∷ "x4" ∷ []) ("x4" ∷ "x2" ∷ "x3" ∷ "x1" ∷ []))
    ∷ (op "SWAP4" 0x93 ("x1" ∷ "x2" ∷ "x3" ∷ "x4" ∷ "x5" ∷ [])
        ("x5" ∷ "x2" ∷ "x3" ∷ "x4" ∷ "x1" ∷ []))
    ∷ (op "SWAP5" 0x94 ("x1" ∷ "x2" ∷ "x3" ∷ "x4" ∷ "x5" ∷ "x6" ∷ [])
        ("x6" ∷ "x2" ∷ "x3" ∷ "x4" ∷ "x5" ∷ "x1" ∷ []))
    ∷ (op "SWAP6" 0x95 ("x1" ∷ "x2" ∷ "x3" ∷ "x4" ∷ "x5" ∷ "x6" ∷ "x7" ∷ [])
        ("x7" ∷ "x2" ∷ "x3" ∷ "x4" ∷ "x5" ∷ "x6" ∷ "x1" ∷ []))
    ∷ (op "SWAP7" 0x96 ("x1" ∷ "x2" ∷ "x3" ∷ "x4" ∷ "x5" ∷ "x6" ∷ "x7" ∷ "x8" ∷ [])
        ("x8" ∷ "x2" ∷ "x3" ∷ "x4" ∷ "x5" ∷ "x6" ∷ "x7" ∷ "x1" ∷ []))
    ∷ (op "SWAP8" 0x97 ("x1" ∷ "x2" ∷ "x3" ∷ "x4" ∷ "x5" ∷ "x6" ∷ "x7" ∷ "x8" ∷ "x9" ∷ [])
        ("x9" ∷ "x2" ∷ "x3" ∷ "x4" ∷ "x5" ∷ "x6" ∷ "x7" ∷ "x8" ∷ "x1" ∷ []))
    ∷ (op "SWAP9" 0x98 ("x1" ∷ "x2" ∷ "x3" ∷ "x4" ∷ "x5" ∷ "x6" ∷ "x7" ∷ "x8" ∷ "x9" ∷ "x10" ∷ [])
        ("x10" ∷ "x2" ∷ "x3" ∷ "x4" ∷ "x5" ∷ "x6" ∷ "x7" ∷ "x8" ∷ "x9" ∷ "x1" ∷ []))
    ∷ (op "SWAP10" 0x99
        ("x1" ∷ "x2" ∷ "x3" ∷ "x4" ∷ "x5" ∷ "x6" ∷ "x7" ∷ "x8" ∷ "x9" ∷ "x10" ∷ "x11" ∷ [])
        ("x11" ∷ "x2" ∷ "x3" ∷ "x4" ∷ "x5" ∷ "x6" ∷ "x7" ∷ "x8" ∷ "x9" ∷ "x10" ∷ "x1" ∷ []))
    ∷ (op "SWAP11" 0x9a
        ("x1" ∷ "x2" ∷ "x3" ∷ "x4" ∷ "x5" ∷ "x6" ∷ "x7" ∷ "x8" ∷ "x9" ∷ "x10" ∷ "x11" ∷ "x12" ∷ [])
        ("x12" ∷ "x2" ∷ "x3" ∷ "x4" ∷ "x5" ∷ "x6" ∷ "x7" ∷ "x8" ∷ "x9" ∷ "x10" ∷ "x11" ∷ "x1" ∷ []))
    ∷ (op "SWAP12" 0x9b
        ("x1" ∷ "x2" ∷ "x3" ∷ "x4" ∷ "x5" ∷ "x6" ∷ "x7" ∷ "x8" ∷ "x9" ∷ "x10" ∷ "x11" ∷ "x12"
          ∷ "x13" ∷ [])
        ("x13" ∷ "x2" ∷ "x3" ∷ "x4" ∷ "x5" ∷ "x6" ∷ "x7" ∷ "x8" ∷ "x9" ∷ "x10" ∷ "x11" ∷ "x12"
          ∷ "x1" ∷ []))
    ∷ (op "SWAP13" 0x9c
        ("x1" ∷ "x2" ∷ "x3" ∷ "x4" ∷ "x5" ∷ "x6" ∷ "x7" ∷ "x8" ∷ "x9" ∷ "x10" ∷ "x11" ∷ "x12"
          ∷ "x13" ∷ "x14" ∷ [])
        ("x14" ∷ "x2" ∷ "x3" ∷ "x4" ∷ "x5" ∷ "x6" ∷ "x7" ∷ "x8" ∷ "x9" ∷ "x10" ∷ "x11" ∷ "x12"
          ∷ "x13" ∷ "x1" ∷ []))
    ∷ (op "SWAP14" 0x9d
        ("x1" ∷ "x2" ∷ "x3" ∷ "x4" ∷ "x5" ∷ "x6" ∷ "x7" ∷ "x8" ∷ "x9" ∷ "x10" ∷ "x11" ∷ "x12"
          ∷ "x13" ∷ "x14" ∷ "x15" ∷ [])
        ("x15" ∷ "x2" ∷ "x3" ∷ "x4" ∷ "x5" ∷ "x6" ∷ "x7" ∷ "x8" ∷ "x9" ∷ "x10" ∷ "x11" ∷ "x12"
          ∷ "x13" ∷ "x14" ∷ "x1" ∷ []))
    ∷ (op "SWAP15" 0x9e
        ("x1" ∷ "x2" ∷ "x3" ∷ "x4" ∷ "x5" ∷ "x6" ∷ "x7" ∷ "x8" ∷ "x9" ∷ "x10" ∷ "x11" ∷ "x12"
          ∷ "x13" ∷ "x14" ∷ "x15" ∷ "x16" ∷ [])
        ("x16" ∷ "x2" ∷ "x3" ∷ "x4" ∷ "x5" ∷ "x6" ∷ "x7" ∷ "x8" ∷ "x9" ∷ "x10" ∷ "x11" ∷ "x12"
          ∷ "x13" ∷ "x14" ∷ "x15" ∷ "x1" ∷ []))
    ∷ (op "SWAP16" 0x9f
        ("x1" ∷ "x2" ∷ "x3" ∷ "x4" ∷ "x5" ∷ "x6" ∷ "x7" ∷ "x8" ∷ "x9" ∷ "x10" ∷ "x11" ∷ "x12"
          ∷ "x13" ∷ "x14" ∷ "x15" ∷ "x16" ∷ "x17" ∷ [])
        ("x17" ∷ "x2" ∷ "x3" ∷ "x4" ∷ "x5" ∷ "x6" ∷ "x7" ∷ "x8" ∷ "x9" ∷ "x10" ∷ "x11" ∷ "x12"
          ∷ "x13" ∷ "x14" ∷ "x15" ∷ "x16" ∷ "x1" ∷ []))
    ∷ []
