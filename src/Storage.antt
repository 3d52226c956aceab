-- ===== src/Storage.antt =====
-- application/src/storage.rs: the flash adapter below the database, the keys, and the defaults.
pub mod Pages
pub mod Keys
pub mod PortNames
mod Examples
pub mod UserEntries
pub mod Database
