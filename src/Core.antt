-- ===== src/Core.antt =====
-- platform/ara-core.
pub mod ErrorDomain
pub mod AdaptivePi
pub mod Storage
pub mod Transfer
pub mod Moving
pub mod Result
pub mod VoidResult
