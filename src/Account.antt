-- ===== src/Account.antt =====
-- internal/account: the pipeline of modules and the account module.
pub mod Tenant
pub mod ResourceData
pub mod Outcome
pub mod Pipeline
pub mod Module
