-- ===== src/Config.antt =====
-- internal/config.
pub mod Files
pub mod Cidr
pub mod Backplane
pub mod Base
