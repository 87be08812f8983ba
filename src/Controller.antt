-- ===== src/Controller.antt =====
-- internal/controller.
pub mod PermitReconciler
pub mod AccountReconciler
pub mod Options
