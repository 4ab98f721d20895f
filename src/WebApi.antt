-- ===== src/WebApi.antt =====
-- services/camera-web-api: the rotation of frames.
pub mod Rotation
