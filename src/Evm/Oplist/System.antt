-- ===== src/Evm/Oplist/System.antt =====
-- internal/evm/ops.go, oplist: LOGx, the TRON instructions, EIP-8024 and the call family.
use geas.Prelude.{true, List, [], ◌∷◌}
use geas.Evm.Op.{Op, op}

unfoldable pub system_ops : List Op
system_ops =
    (op "LOG0" 0xa0 ("memOffset" ∷ "length" ∷ []) [])
    ∷ (op "LOG1" 0xa1 ("memOffset" ∷ "length" ∷ "topic1" ∷ []) [])
    ∷ (op "LOG2" 0xa2 ("memOffset" ∷ "length" ∷ "topic1" ∷ "topic2" ∷ []) [])
    ∷ (op "LOG3" 0xa3 ("memOffset" ∷ "length" ∷ "topic1" ∷ "topic2" ∷ "topic3" ∷ []) [])
    ∷ (op "LOG4" 0xa4 ("memOffset" ∷ "length" ∷ "topic1" ∷ "topic2" ∷ "topic3" ∷ "topic4" ∷ []) [])
    ∷ (op "CALLTOKEN" 0xd0
        ("gas" ∷ "address" ∷ "value" ∷ "tokenId" ∷ "argOffset" ∷ "argLength" ∷ "returnOffset"
          ∷ "returnLength" ∷ [])
        ("ok" ∷ []))
    ∷ (op "TOKENBALANCE" 0xd1 ("tokenId" ∷ "address" ∷ []) ("balance" ∷ []))
    ∷ (op "CALLTOKENVALUE" 0xd2 [] ("value" ∷ []))
    ∷ (op "CALLTOKENID" 0xd3 [] ("tokenId" ∷ []))
    ∷ (op "ISCONTRACT" 0xd4 ("address" ∷ []) ("isContract" ∷ []))
    ∷ (op "FREEZE" 0xd5 ("resourceType" ∷ "frozenBalance" ∷ "receiverAddress" ∷ []) ("ok" ∷ []))
    ∷ (op "UNFREEZE" 0xd6 ("resourceType" ∷ "targetAddress" ∷ []) ("ok" ∷ []))
    ∷ (op "FREEZEEXPIRETIME" 0xd7 ("resourceType" ∷ "targetAddress" ∷ []) ("expireTime" ∷ []))
    ∷ (op "VOTEWITNESS" 0xd8
        ("amountArrayLength" ∷ "amountArrayOffset" ∷ "witnessArrayLength" ∷ "witnessArrayOffset"
          ∷ [])
        ("ok" ∷ []))
    ∷ (op "WITHDRAWREWARD" 0xd9 [] ("withdrawReward" ∷ []))
    ∷ (op "FREEZEBALANCEV2" 0xda ("resourceType" ∷ "frozenBalance" ∷ []) ("ok" ∷ []))
    ∷ (op "UNFREEZEBALANCEV2" 0xdb ("resourceType" ∷ "unfreezeBalance" ∷ []) ("ok" ∷ []))
    ∷ (op "CANCELALLUNFREEZEV2" 0xdc [] ("ok" ∷ []))
    ∷ (op "WITHDRAWEXPIREUNFREEZE" 0xdd [] ("ok" ∷ []))
    ∷ (op "DELEGATERESOURCE" 0xde ("resourceType" ∷ "delegateBalance" ∷ "receiverAddress" ∷ [])
        ("ok" ∷ []))
    ∷ (op "UNDELEGATERESOURCE" 0xdf ("resourceType" ∷ "unDelegateBalance" ∷ "receiverAddress" ∷ [])
        ("ok" ∷ []))
    ∷ (record (op "DUPN" 0xe6 [] []) { has_immediate = true })
    ∷ (record (op "SWAPN" 0xe7 [] []) { has_immediate = true })
    ∷ (record (op "EXCHANGE" 0xe8 [] []) { has_immediate = true })
    ∷ (op "CREATE" 0xf0 ("endowment" ∷ "inOffset" ∷ "inLength" ∷ []) ("address" ∷ []))
    ∷ (op "CALL" 0xf1
        ("gas" ∷ "address" ∷ "value" ∷ "inOffset" ∷ "inLength" ∷ "returnOffset" ∷ "returnLength"
          ∷ [])
        ("ok" ∷ []))
    ∷ (op "CALLCODE" 0xf2
        ("gas" ∷ "address" ∷ "value" ∷ "inOffset" ∷ "inLength" ∷ "returnOffset" ∷ "returnLength"
          ∷ [])
        ("ok" ∷ []))
    ∷ (record (op "RETURN" 0xf3 ("offset" ∷ "length" ∷ []) []) { term = true })
    ∷ (op "DELEGATECALL" 0xf4
        ("gas" ∷ "address" ∷ "inOffset" ∷ "inLength" ∷ "returnOffset" ∷ "returnLength" ∷ [])
        ("ok" ∷ []))
    ∷ (op "CREATE2" 0xf5 ("endowment" ∷ "inOffset" ∷ "inLength" ∷ "salt" ∷ []) ("address" ∷ []))
    ∷ (op "STATICCALL" 0xfa
        ("gas" ∷ "address" ∷ "inOffset" ∷ "inLength" ∷ "returnOffset" ∷ "returnLength" ∷ [])
        ("ok" ∷ []))
    ∷ (record (op "REVERT" 0xfd ("offset" ∷ "length" ∷ []) []) { term = true })
    ∷ (record (op "SELFDESTRUCT" 0xff ("heir" ∷ []) []) { term = true })
    ∷ (record (op "SENDALL" 0xff ("heir" ∷ []) []) { term = true })
    ∷ []
