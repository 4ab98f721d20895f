-- ===== src/Tests.antt =====
-- The theorems at concrete inputs.
pub mod Streams
pub mod Channels
pub mod Cameras
pub mod Recording
pub mod Images
pub mod Storage
pub mod Settings
pub mod Detection
pub mod Viewing
