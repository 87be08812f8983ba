-- ===== src/Apis.antt =====
-- apis/base/v1alpha1: the two resources. Conditions and events are crossplane-runtime's, a
-- parameter of everything that touches them. Times are nanoseconds since a fixed instant, without
-- wrap-around.
pub mod Crossplane
pub mod SnowflakeAccount
pub mod DeletionPermit
pub mod Admission
pub mod Managed
