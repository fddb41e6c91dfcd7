-- ===== src/Evm/Oplist/Push.antt =====
-- internal/evm/ops.go, oplist: PUSHx.
use geas.Prelude.{true, List, [], ◌∷◌}
use geas.Evm.Op.{Op, op}

unfoldable pub push_ops : List Op
push_ops =
    (record (op "PUSH0" 0x5f [] ("zero" ∷ [])) { push = true })
    ∷ (record (op "PUSH1" 0x60 [] ("val" ∷ [])) { push = true })
    ∷ (record (op "PUSH2" 0x61 [] ("val" ∷ [])) { push = true })
    ∷ (record (op "PUSH3" 0x62 [] ("val" ∷ [])) { push = true })
    ∷ (record (op "PUSH4" 0x63 [] ("val" ∷ [])) { push = true })
    ∷ (record (op "PUSH5" 0x64 [] ("val" ∷ [])) { push = true })
    ∷ (record (op "PUSH6" 0x65 [] ("val" ∷ [])) { push = true })
    ∷ (record (op "PUSH7" 0x66 [] ("val" ∷ [])) { push = true })
    ∷ (record (op "PUSH8" 0x67 [] ("val" ∷ [])) { push = true })
    ∷ (record (op "PUSH9" 0x68 [] ("val" ∷ [])) { push = true })
    ∷ (record (op "PUSH10" 0x69 [] ("val" ∷ [])) { push = true })
    ∷ (record (op "PUSH11" 0x6a [] ("val" ∷ [])) { push = true })
    ∷ (record (op "PUSH12" 0x6b [] ("val" ∷ [])) { push = true })
    ∷ (record (op "PUSH13" 0x6c [] ("val" ∷ [])) { push = true })
    ∷ (record (op "PUSH14" 0x6d [] ("val" ∷ [])) { push = true })
    ∷ (record (op "PUSH15" 0x6e [] ("val" ∷ [])) { push = true })
    ∷ (record (op "PUSH16" 0x6f [] ("val" ∷ [])) { push = true })
    ∷ (record (op "PUSH17" 0x70 [] ("val" ∷ [])) { push = true })
    ∷ (record (op "PUSH18" 0x71 [] ("val" ∷ [])) { push = true })
    ∷ (record (op "PUSH19" 0x72 [] ("val" ∷ [])) { push = true })
    ∷ (record (op "PUSH20" 0x73 [] ("val" ∷ [])) { push = true })
    ∷ (record (op "PUSH21" 0x74 [] ("val" ∷ [])) { push = true })
    ∷ (record (op "PUSH22" 0x75 [] ("val" ∷ [])) { push = true })
    ∷ (record (op "PUSH23" 0x76 [] ("val" ∷ [])) { push = true })
    ∷ (record (op "PUSH24" 0x77 [] ("val" ∷ [])) { push = true })
    ∷ (record (op "PUSH25" 0x78 [] ("val" ∷ [])) { push = true })
    ∷ (record (op "PUSH26" 0x79 [] ("val" ∷ [])) { push = true })
    ∷ (record (op "PUSH27" 0x7a [] ("val" ∷ [])) { push = true })
    ∷ (record (op "PUSH28" 0x7b [] ("val" ∷ [])) { push = true })
    ∷ (record (op "PUSH29" 0x7c [] ("val" ∷ [])) { push = true })
    ∷ (record (op "PUSH30" 0x7d [] ("val" ∷ [])) { push = true })
    ∷ (record (op "PUSH31" 0x7e [] ("val" ∷ [])) { push = true })
    ∷ (record (op "PUSH32" 0x7f [] ("val" ∷ [])) { push = true })
    ∷ []
