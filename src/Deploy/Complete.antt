-- ===== src/Deploy/Complete.antt =====
-- Whatever argus/ports.py gives out, argus/firewall.py, argus/shared.py and argus/tor.py find every port that
-- they ask for.
pub mod Given
pub mod Numbered
pub mod Names
pub mod Fronts
pub mod Total
pub mod Served
