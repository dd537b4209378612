-- ===== src/CLib.antt =====
-- What the programs use of the C library: numbers in text, strings in buffers, bytes of a file.
pub mod Numbers
pub mod Strings
pub mod Files
pub mod Strtol
pub mod Strtoul
