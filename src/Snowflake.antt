-- ===== src/Snowflake.antt =====
-- internal/snowflake: hosts, statements and the connection pool.
pub mod Host
pub mod Statement
pub mod Pool
