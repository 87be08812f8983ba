-- ===== src/Snowflake/Pool.antt =====
-- internal/snowflake/pool.
pub mod Backend
pub mod Connect
pub mod Rotation
pub mod Cache
pub mod Shutdown
pub mod Leaks
pub mod Locks
