-- ===== src/Db/Map.antt =====
-- The database as a map from keys to data.
pub mod Extents
pub mod Places
pub mod Count
pub mod State
pub mod Views
pub mod Change
pub mod Fetch
pub mod Delete
pub mod Insert
pub mod Reuse
pub mod Replace
pub mod Store
pub mod Open
pub mod Session
