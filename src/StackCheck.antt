-- ===== src/StackCheck.antt =====
-- internal/stackcheck: the check of the stack comments of a program.
pub mod Blocks
pub mod Effect
