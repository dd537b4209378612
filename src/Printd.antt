-- ===== src/Printd.antt =====
-- printd.c of the print spooler: the job queue, the worker threads, the client and printer threads.
pub mod Heap
pub mod Chunks
pub mod Queue
pub mod Workers
pub mod Jobno
pub mod Ipp
pub mod Client
pub mod Printer
pub mod Status
pub mod Start
mod Tests
