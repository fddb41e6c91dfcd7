-- ===== src/Evm.antt =====
-- internal/evm: the instruction table, immediate bytes, stack effects, forks and instruction sets.
pub mod Op
pub mod Oplist
pub mod Immediate
pub mod Effect
pub mod Defs
pub mod Forks
pub mod InstructionSet
mod Tests
