-- ===== src/Evm/Oplist/Environment.antt =====
-- internal/evm/ops.go, oplist: hashing, environment, block, memory, storage and control flow.
use geas.Prelude.{true, List, [], ◌∷◌}
use geas.Evm.Op.{Op, op}

unfoldable pub environment_ops : List Op
environment_ops =
    (op "KECCAK256" 0x20 ("offset" ∷ "size" ∷ []) ("hash" ∷ []))
    ∷ (op "ADDRESS" 0x30 [] ("address" ∷ []))
    ∷ (op "BALANCE" 0x31 ("address" ∷ []) ("balance" ∷ []))
    ∷ (op "ORIGIN" 0x32 [] ("origin" ∷ []))
    ∷ (op "CALLER" 0x33 [] ("caller" ∷ []))
    ∷ (op "CALLVALUE" 0x34 [] ("callvalue" ∷ []))
    ∷ (op "CALLDATALOAD" 0x35 ("offset" ∷ []) ("word" ∷ []))
    ∷ (op "CALLDATASIZE" 0x36 [] ("size" ∷ []))
    ∷ (op "CALLDATACOPY" 0x37 ("memOffset" ∷ "dataOffset" ∷ "length" ∷ []) [])
    ∷ (op "CODESIZE" 0x38 [] ("codesize" ∷ []))
    ∷ (op "CODECOPY" 0x39 ("memOffset" ∷ "codeOffset" ∷ "length" ∷ []) [])
    ∷ (op "GASPRICE" 0x3a [] ("gasprice" ∷ []))
    ∷ (op "EXTCODESIZE" 0x3b ("address" ∷ []) ("codesize" ∷ []))
    ∷ (op "EXTCODECOPY" 0x3c ("address" ∷ "memOffset" ∷ "codeOffset" ∷ "length" ∷ []) [])
    ∷ (op "RETURNDATASIZE" 0x3d [] ("returndatasize" ∷ []))
    ∷ (op "RETURNDATACOPY" 0x3e ("memOffset" ∷ "dataOffset" ∷ "length" ∷ []) [])
    ∷ (op "EXTCODEHASH" 0x3f ("address" ∷ []) ("codehash" ∷ []))
    ∷ (op "BLOCKHASH" 0x40 ("blockNumber" ∷ []) ("blockHash" ∷ []))
    ∷ (op "COINBASE" 0x41 [] ("coinbase" ∷ []))
    ∷ (op "TIMESTAMP" 0x42 [] ("timestamp" ∷ []))
    ∷ (op "NUMBER" 0x43 [] ("blocknum" ∷ []))
    ∷ (op "DIFFICULTY" 0x44 [] ("difficulty" ∷ []))
    ∷ (op "RANDOM" 0x44 [] ("random" ∷ []))
    ∷ (op "GASLIMIT" 0x45 [] ("gaslimit" ∷ []))
    ∷ (op "CHAINID" 0x46 [] ("chainid" ∷ []))
    ∷ (op "SELFBALANCE" 0x47 [] ("balance" ∷ []))
    ∷ (op "BASEFEE" 0x48 [] ("basefee" ∷ []))
    ∷ (op "BLOBHASH" 0x49 ("index" ∷ []) ("blobhash" ∷ []))
    ∷ (op "BLOBBASEFEE" 0x4a [] ("blobbasefee" ∷ []))
    ∷ (op "SLOTNUM" 0x4b [] ("slotnum" ∷ []))
    ∷ (op "POP" 0x50 ("x" ∷ []) [])
    ∷ (op "MLOAD" 0x51 ("offset" ∷ []) ("word" ∷ []))
    ∷ (op "MSTORE" 0x52 ("memOffset" ∷ "x" ∷ []) [])
    ∷ (op "MSTORE8" 0x53 ("memOffset" ∷ "byte" ∷ []) [])
    ∷ (op "SLOAD" 0x54 ("slot" ∷ []) ("val" ∷ []))
    ∷ (op "SSTORE" 0x55 ("slot" ∷ "val" ∷ []) [])
    ∷ (record (op "JUMP" 0x56 ("label" ∷ []) []) { jump = true; unconditional = true })
    ∷ (record (op "JUMPI" 0x57 ("label" ∷ "cond" ∷ []) []) { jump = true })
    ∷ (op "PC" 0x58 [] ("pc" ∷ []))
    ∷ (op "MSIZE" 0x59 [] ("memSize" ∷ []))
    ∷ (op "GAS" 0x5a [] ("gas" ∷ []))
    ∷ (record (op "JUMPDEST" 0x5b [] []) { jump_dest = true })
    ∷ (op "TLOAD" 0x5c ("slot" ∷ []) ("val" ∷ []))
    ∷ (op "TSTORE" 0x5d ("slot" ∷ "val" ∷ []) [])
    ∷ (op "MCOPY" 0x5e ("destOffset" ∷ "srcOffset" ∷ "length" ∷ []) [])
    ∷ []
