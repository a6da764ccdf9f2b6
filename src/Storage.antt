-- ===== src/Storage.antt =====
-- internal/storage and internal/backup.
pub mod Paths
pub mod Files
pub mod Local
pub mod Objects
pub mod Calls
pub mod Contract
pub mod Refinement
pub mod Success
pub mod Confined
pub mod Backup
pub mod Restore
pub mod Listing
