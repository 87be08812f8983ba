-- ===== src/Account/Module/Laws.antt =====
-- Properties of the account module.
pub mod Frame
pub mod Recorded
pub mod Removal
pub mod Refusals
pub mod Resumption
pub mod Identifiers
