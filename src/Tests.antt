-- ===== src/Tests.antt =====
-- The theorems at concrete inputs.
pub mod Caches
pub mod Formats
pub mod Configs
pub mod Files
pub mod Offloads
pub mod Layered
pub mod Composed
