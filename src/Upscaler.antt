-- ===== src/Upscaler.antt =====
-- services/camera-web-restream-upscaler-api: the passes of an upscale and the worker pool.
pub mod Digits
pub mod Passes
pub mod Pool
