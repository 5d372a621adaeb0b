-- ===== src/Net.antt =====
-- src/net: how fast connections are opened.
pub mod Reals
pub mod RateLimiter
pub mod AsyncPool
