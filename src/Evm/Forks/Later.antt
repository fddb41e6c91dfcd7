-- ===== src/Evm/Forks/Later.antt =====
-- internal/evm/forkdefs.go: the instruction sets after frontier, each as a change to its parent.
use geas.Prelude.{[], ◌∷◌}
use geas.Evm.Defs.{InstructionSetDef, ops}

unfoldable pub homestead : InstructionSetDef
homestead = record {
  names = ("homestead" ∷ []);
  parent = "frontier";
  added = ops ("DELEGATECALL" ∷ []);
  removed = ops [];
}

unfoldable pub tangerinewhistle : InstructionSetDef
tangerinewhistle = record {
  names = ("tangerinewhistle" ∷ "eip150" ∷ []);
  parent = "homestead";
  added = ops [];
  removed = ops [];
}

unfoldable pub spuriousdragon : InstructionSetDef
spuriousdragon = record {
  names = ("spuriousdragon" ∷ "eip158" ∷ []);
  parent = "tangerinewhistle";
  added = ops [];
  removed = ops [];
}

unfoldable pub byzantium : InstructionSetDef
byzantium = record {
  names = ("byzantium" ∷ []);
  parent = "spuriousdragon";
  added = ops ("STATICCALL" ∷ "RETURNDATASIZE" ∷ "RETURNDATACOPY" ∷ "REVERT" ∷ []);
  removed = ops [];
}

unfoldable pub petersburg : InstructionSetDef
petersburg = record {
  names = ("petersburg" ∷ []);
  parent = "byzantium";
  added = ops [];
  removed = ops [];
}

unfoldable pub constantinople : InstructionSetDef
constantinople = record {
  names = ("constantinople" ∷ []);
  parent = "petersburg";
  added = ops ("SHL" ∷ "SHR" ∷ "SAR" ∷ "EXTCODEHASH" ∷ "CREATE2" ∷ []);
  removed = ops [];
}

unfoldable pub istanbul : InstructionSetDef
istanbul = record {
  names = ("istanbul" ∷ []);
  parent = "constantinople";
  added = ops ("CHAINID" ∷ "SELFBALANCE" ∷ []);
  removed = ops [];
}

unfoldable pub berlin : InstructionSetDef
berlin = record { names = ("berlin" ∷ []); parent = "istanbul"; added = ops []; removed = ops [] }

unfoldable pub london : InstructionSetDef
london = record {
  names = ("london" ∷ []);
  parent = "berlin";
  added = ops ("BASEFEE" ∷ []);
  removed = ops [];
}

unfoldable pub paris : InstructionSetDef
paris = record {
  names = ("paris" ∷ "merge" ∷ []);
  parent = "london";
  added = ops ("RANDOM" ∷ []);
  removed = ops ("DIFFICULTY" ∷ []);
}

unfoldable pub shanghai : InstructionSetDef
shanghai = record {
  names = ("shanghai" ∷ []);
  parent = "paris";
  added = ops ("PUSH0" ∷ []);
  removed = ops [];
}

unfoldable pub cancun : InstructionSetDef
cancun = record {
  names = ("cancun" ∷ []);
  parent = "shanghai";
  added = ops ("BLOBHASH" ∷ "BLOBBASEFEE" ∷ "TSTORE" ∷ "TLOAD" ∷ "MCOPY" ∷ "SENDALL" ∷ []);
  removed = ops ("SELFDESTRUCT" ∷ []);
}

unfoldable pub prague : InstructionSetDef
prague = record { names = ("prague" ∷ []); parent = "cancun"; added = ops []; removed = ops [] }

unfoldable pub osaka : InstructionSetDef
osaka = record {
  names = ("osaka" ∷ []);
  parent = "prague";
  added = ops ("CLZ" ∷ []);
  removed = ops [];
}

unfoldable pub amsterdam : InstructionSetDef
amsterdam = record {
  names = ("amsterdam" ∷ []);
  parent = "osaka";
  added = ops ("DUPN" ∷ "SWAPN" ∷ "EXCHANGE" ∷ "SLOTNUM" ∷ []);
  removed = ops [];
}

unfoldable pub tron : InstructionSetDef
tron = record {
  names = ("tron" ∷ []);
  parent = "shanghai";
  added = ops (
      "CALLTOKEN" ∷ "TOKENBALANCE" ∷ "CALLTOKENVALUE" ∷ "CALLTOKENID" ∷ "ISCONTRACT" ∷ "FREEZE"
      ∷ "UNFREEZE" ∷ "FREEZEEXPIRETIME" ∷ "VOTEWITNESS" ∷ "WITHDRAWREWARD" ∷ "FREEZEBALANCEV2"
      ∷ "UNFREEZEBALANCEV2" ∷ "CANCELALLUNFREEZEV2" ∷ "WITHDRAWEXPIREUNFREEZE" ∷ "DELEGATERESOURCE"
      ∷ "UNDELEGATERESOURCE" ∷ []);
  removed = ops [];
}
