-- ===== src/Evm/Oplist.antt =====
-- internal/evm/ops.go: the list of all opcodes, in the order of the source, and the map `opm`.
mod Arithmetic
mod Environment
mod Push
mod Dup
mod Swap
mod System
use geas.Prelude.{List, ◌++◌}
use geas.Evm.Op.{Op}
use Arithmetic.{arithmetic_ops}
use Environment.{environment_ops}
use Push.{push_ops}
use Dup.{dup_ops}
use Swap.{swap_ops}
use System.{system_ops}

unfoldable pub oplist : List Op
unfolding arithmetic_ops environment_ops push_ops dup_ops swap_ops system_ops
oplist = arithmetic_ops ++ (environment_ops ++ (push_ops ++ (dup_ops ++ (swap_ops ++ system_ops))))
