-- ===== src/Core.antt =====
-- src/core: the results that all parts share.
pub mod Floats
pub mod Result
