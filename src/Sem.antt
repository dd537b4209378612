-- ===== src/Sem.antt =====
-- Semaphores over System V semaphore sets: refer_code/apue.2e/lib/semaph.c.
pub mod Kernel
pub mod Process
pub mod System
pub mod Operations
pub mod Totals
pub mod Invariant
pub mod Safety
pub mod Removal
pub mod Races
mod Tests
