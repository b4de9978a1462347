-- ===== src/Examples.antt =====
-- The theorems at concrete inputs, and runs of the definitions.
pub mod Core
pub mod Records
pub mod Calls
pub mod Streams
pub mod Registries
pub mod Directory
pub mod Threads
pub mod Histories
pub mod Output
pub mod Compiling
pub mod Interleaving
pub mod Transcript
pub mod Hello
