-- ===== src/Evm/Oplist/Dup.antt =====
-- internal/evm/ops.go, oplist: DUPx.
use geas.Prelude.{List, [], ◌∷◌}
use geas.Evm.Op.{Op, op}

unfoldable pub dup_ops : List Op
dup_ops =
    (op "DUP1" 0x80 ("x" ∷ []) ("x" ∷ "x" ∷ []))
    ∷ (op "DUP2" 0x81 ("x1" ∷ "x2" ∷ []) ("x2" ∷ "x1" ∷ "x2" ∷ []))
    ∷ (op "DUP3" 0x82 ("x1" ∷ "x2" ∷ "x3" ∷ []) ("x3" ∷ "x1" ∷ "x2" ∷ "x3" ∷ []))
    ∷ (op "DUP4" 0x83 ("x1" ∷ "x2" ∷ "x3" ∷ "x4" ∷ []) ("x4" ∷ "x1" ∷ "x2" ∷ "x3" ∷ "x4" ∷ []))
    ∷ (op "DUP5" 0x84 ("x1" ∷ "x2" ∷ "x3" ∷ "x4" ∷ "x5" ∷ [])
        ("x5" ∷ "x1" ∷ "x2" ∷ "x3" ∷ "x4" ∷ "x5" ∷ []))
    ∷ (op "DUP6" 0x85 ("x1" ∷ "x2" ∷ "x3" ∷ "x4" ∷ "x5" ∷ "x6" ∷ [])
        ("x6" ∷ "x1" ∷ "x2" ∷ "x3" ∷ "x4" ∷ "x5" ∷ "x6" ∷ []))
    ∷ (op "DUP7" 0x86 ("x1" ∷ "x2" ∷ "x3" ∷ "x4" ∷ "x5" ∷ "x6" ∷ "x7" ∷ [])
        ("x7" ∷ "x1" ∷ "x2" ∷ "x3" ∷ "x4" ∷ "x5" ∷ "x6" ∷ "x7" ∷ []))
    ∷ (op "DUP8" 0x87 ("x1" ∷ "x2" ∷ "x3" ∷ "x4" ∷ "x5" ∷ "x6" ∷ "x7" ∷ "x8" ∷ [])
        ("x8" ∷ "x1" ∷ "x2" ∷ "x3" ∷ "x4" ∷ "x5" ∷ "x6" ∷ "x7" ∷ "x8" ∷ []))
    ∷ (op "DUP9" 0x88 ("x1" ∷ "x2" ∷ "x3" ∷ "x4" ∷ "x5" ∷ "x6" ∷ "x7" ∷ "x8" ∷ "x9" ∷ [])
        ("x9" ∷ "x1" ∷ "x2" ∷ "x3" ∷ "x4" ∷ "x5" ∷ "x6" ∷ "x7" ∷ "x8" ∷ "x9" ∷ []))
    ∷ (op "DUP10" 0x89 ("x1" ∷ "x2" ∷ "x3" ∷ "x4" ∷ "x5" ∷ "x6" ∷ "x7" ∷ "x8" ∷ "x9" ∷ "x10" ∷ [])
        ("x10" ∷ "x1" ∷ "x2" ∷ "x3" ∷ "x4" ∷ "x5" ∷ "x6" ∷ "x7" ∷ "x8" ∷ "x9" ∷ "x10" ∷ []))
    ∷ (op "DUP11" 0x8a
        ("x1" ∷ "x2" ∷ "x3" ∷ "x4" ∷ "x5" ∷ "x6" ∷ "x7" ∷ "x8" ∷ "x9" ∷ "x10" ∷ "x11" ∷ [])
        ("x11" ∷ "x1" ∷ "x2" ∷ "x3" ∷ "x4" ∷ "x5" ∷ "x6" ∷ "x7" ∷ "x8" ∷ "x9" ∷ "x10" ∷ "x11" ∷ []))
    ∷ (op "DUP12" 0x8b
        ("x1" ∷ "x2" ∷ "x3" ∷ "x4" ∷ "x5" ∷ "x6" ∷ "x7" ∷ "x8" ∷ "x9" ∷ "x10" ∷ "x11" ∷ "x12" ∷ [])
        ("x12" ∷ "x1" ∷ "x2" ∷ "x3" ∷ "x4" ∷ "x5" ∷ "x6" ∷ "x7" ∷ "x8" ∷ "x9" ∷ "x10" ∷ "x11"
          ∷ "x12" ∷ []))
    ∷ (op "DUP13" 0x8c
        ("x1" ∷ "x2" ∷ "x3" ∷ "x4" ∷ "x5" ∷ "x6" ∷ "x7" ∷ "x8" ∷ "x9" ∷ "x10" ∷ "x11" ∷ "x12"
          ∷ "x13" ∷ [])
        ("x13" ∷ "x1" ∷ "x2" ∷ "x3" ∷ "x4" ∷ "x5" ∷ "x6" ∷ "x7" ∷ "x8" ∷ "x9" ∷ "x10" ∷ "x11"
          ∷ "x12" ∷ "x13" ∷ []))
    ∷ (op "DUP14" 0x8d
        ("x1" ∷ "x2" ∷ "x3" ∷ "x4" ∷ "x5" ∷ "x6" ∷ "x7" ∷ "x8" ∷ "x9" ∷ "x10" ∷ "x11" ∷ "x12"
          ∷ "x13" ∷ "x14" ∷ [])
        ("x14" ∷ "x1" ∷ "x2" ∷ "x3" ∷ "x4" ∷ "x5" ∷ "x6" ∷ "x7" ∷ "x8" ∷ "x9" ∷ "x10" ∷ "x11"
          ∷ "x12" ∷ "x13" ∷ "x14" ∷ []))
    ∷ (op "DUP15" 0x8e
        ("x1" ∷ "x2" ∷ "x3" ∷ "x4" ∷ "x5" ∷ "x6" ∷ "x7" ∷ "x8" ∷ "x9" ∷ "x10" ∷ "x11" ∷ "x12"
          ∷ "x13" ∷ "x14" ∷ "x15" ∷ [])
        ("x15" ∷ "x1" ∷ "x2" ∷ "x3" ∷ "x4" ∷ "x5" ∷ "x6" ∷ "x7" ∷ "x8" ∷ "x9" ∷ "x10" ∷ "x11"
          ∷ "x12" ∷ "x13" ∷ "x14" ∷ "x15" ∷ []))
    ∷ (op "DUP16" 0x8f
        ("x1" ∷ "x2" ∷ "x3" ∷ "x4" ∷ "x5" ∷ "x6" ∷ "x7" ∷ "x8" ∷ "x9" ∷ "x10" ∷ "x11" ∷ "x12"
          ∷ "x13" ∷ "x14" ∷ "x15" ∷ "x16" ∷ [])
        ("x16" ∷ "x1" ∷ "x2" ∷ "x3" ∷ "x4" ∷ "x5" ∷ "x6" ∷ "x7" ∷ "x8" ∷ "x9" ∷ "x10" ∷ "x11"
          ∷ "x12" ∷ "x13" ∷ "x14" ∷ "x15" ∷ "x16" ∷ []))
    ∷ []
