-- ===== src/Io.antt =====
-- The memory access utility io.c.
pub mod Options
pub mod Plan
pub mod Access
pub mod Main
mod Tests
