-- ===== src/Dtree.antt =====
-- The directory tree monitor inotify_dtree.c.
pub mod State
pub mod Cache
pub mod Paths
pub mod Events
pub mod Session
mod Tests
