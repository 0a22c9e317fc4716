-- ===== src/Faucet.antt =====
-- The faucet (argus/faucet): its clock, database, rules and request handling.
pub mod Clock
pub mod Store
pub mod Config
pub mod Rules
pub mod Amount
pub mod Subsidy
pub mod Address
pub mod Pow
pub mod Dispensing
pub mod Request
pub mod Approval
pub mod Housekeeping
pub mod Page
