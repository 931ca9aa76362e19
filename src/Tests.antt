-- ===== src/Tests.antt =====
-- The tests: concrete runs of the program, and the theorems applied to them.
pub mod Site
pub mod Lifecycle
pub mod Compatibility
pub mod Backup
pub mod Health
pub mod Export
pub mod Maintenance
pub mod Analytics
pub mod Web
pub mod Promotions
pub mod Lifespan
pub mod RepoContext
