-- ===== src/Deletion.antt =====
-- internal/deletion.
pub mod Kube
pub mod Permits
pub mod Earliest
