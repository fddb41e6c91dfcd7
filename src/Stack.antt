-- ===== src/Stack.antt =====
-- internal/stack: the symbolic stack of the stack checker.
pub mod Names
pub mod Defs
pub mod Check
pub mod Comment
pub mod Apply
mod Tests
