-- ===== src/Probes.antt =====
-- src/probes: the rules of the probe database and how a probe identifies a service.
pub mod Regex
pub mod Hex
pub mod Template
pub mod Rules
pub mod Registry
pub mod Banner
pub mod Identify
