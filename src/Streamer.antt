-- ===== src/Streamer.antt =====
-- services/ffmpeg-streamer: the frame cache behind the IPC client, the merged canvas and its grid, and
-- the clock that feeds ffmpeg.
pub mod Cache
pub mod Compose
pub mod Feed
