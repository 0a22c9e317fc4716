-- ===== src/Deploy.antt =====
-- The generator of a deployment (argus): the networks' settings and the host ports it gives out.
pub mod Network
pub mod Layout
pub mod Ports
pub mod Reset
pub mod Firewall
pub mod Sites
pub mod Onion
pub mod Script
pub mod Secrets
pub mod Image
pub mod Validation
pub mod Complete
