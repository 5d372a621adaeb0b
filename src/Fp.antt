-- ===== src/Fp.antt =====
-- src/fp: lookups of what is known of an address, a service or a vulnerability, and fingerprints.
pub mod Ipv4
pub mod Cdn
pub mod Ja4Server
pub mod Ja4
pub mod Ja4X509
pub mod Cve
pub mod Epss
