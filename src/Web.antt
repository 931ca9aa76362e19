-- ===== src/Web.antt =====
-- The HTTP application (app): the values of its rows and responses, and a module for each service.
pub mod Value
pub mod Sorting
pub mod Reader
pub mod Routes
pub mod Lineage
pub mod ContextPacks
pub mod Proposals
pub mod Applications
pub mod Promotions
pub mod Lifespan
