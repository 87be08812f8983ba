-- ===== src/Snowflake/Statement.antt =====
-- internal/snowflake/statement.
pub mod Render
pub mod Rows
pub mod Runner
