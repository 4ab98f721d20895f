-- ===== src/Recorder.antt =====
-- services/camera-recorder: the timelapse decimation, the metrics, the recording loop of a camera
-- and the camera sessions.
pub mod Sampling
pub mod Metrics
pub mod Camera
pub mod Sessions
pub mod Config
pub mod Storage
pub mod Api
