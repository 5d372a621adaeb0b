-- ===== src/Scan.antt =====
-- src/core/scanner.cpp and src/scan: the scan of one port.
pub mod Connect
pub mod Pipeline
