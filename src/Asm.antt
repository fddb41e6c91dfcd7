-- ===== src/Asm.antt =====
-- asm: the assembler after expansion.
pub mod Program
pub mod Arguments
pub mod Layout
pub mod Output
pub mod Evaluator
pub mod Backend
pub mod Expand
pub mod Compile
pub mod Analysis
mod Tests
