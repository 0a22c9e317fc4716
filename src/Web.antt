-- ===== src/Web.antt =====
-- The dashboard (argus/web): the history of the services' resource use.
pub mod History
pub mod Sampler
pub mod Lnurl
pub mod Cache
pub mod Metrics
pub mod Inventory
pub mod Donations
