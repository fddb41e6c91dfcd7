-- ===== src/Evm/Op.antt =====
-- internal/evm/ops.go: the type Op. The fields `in` and `out` are `inputs` and `outputs` here.
use geas.Prelude.{ℕ, Bool, false, List, String}

pub record Op : Type 0 where
  pub name : String
  pub code : ℕ
  pub inputs : List String
  pub outputs : List String
  pub push : Bool
  pub term : Bool
  pub jump : Bool
  pub unconditional : Bool
  pub jump_dest : Bool
  pub has_immediate : Bool

-- A composite literal that sets no flag.
abbrev pub op : String → ℕ → List String → List String → Op
op n c i o = record {
  name = n;
  code = c;
  inputs = i;
  outputs = o;
  push = false;
  term = false;
  jump = false;
  unconditional = false;
  jump_dest = false;
  has_immediate = false;
}
