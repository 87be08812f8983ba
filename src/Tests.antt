-- ===== src/Tests.antt =====
-- Concrete inputs, and the properties at them.
pub mod Fixtures
pub mod Texts
pub mod Stores
pub mod Accounts
pub mod Controllers
pub mod Configs
pub mod Clouds
pub mod Orders
pub mod Pools
pub mod Drivers
pub mod Admissions
