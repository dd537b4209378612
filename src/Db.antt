-- ===== src/Db.antt =====
-- The database library, refer_code/apue.2e/db/db.c: two files, an index with hash chains and a
-- free list of records, and the data records.
pub mod State
pub mod Hash
pub mod Pointers
pub mod Records
pub mod Search
pub mod Ops
pub mod Map
mod Tests
