-- ===== src/Log.antt =====
-- platform/ara-log.
pub mod RecordBuffer
pub mod Level
pub mod Metadata
pub mod Timestamp
pub mod Console
pub mod Sink
pub mod Logger
pub mod Registry
pub mod Facade
pub mod Stream
pub mod Writer
pub mod Attributes
pub mod Modelled
pub mod Types
