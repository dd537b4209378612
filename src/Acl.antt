-- ===== src/Acl.antt =====
-- Updates of access control lists: refer_code/tlpi-dist/acl/acl_update.c.
pub mod Spec
pub mod RoundTrip
pub mod Update
pub mod Lookup
pub mod Effect
pub mod Restore
mod Tests
