-- ===== src/Cli.antt =====
-- src/cli: the command line, the port specification and the scope guard.
pub mod Ports
pub mod Args
pub mod TopPorts
pub mod Scope
