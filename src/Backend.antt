-- ===== src/Backend.antt =====
-- services/tcp-camera-backend: the camera protocol, one camera connection, the accept loop, the
-- frame counters and the publisher on the Unix socket.
pub mod Protocol
pub mod Wire
pub mod Bounds
pub mod Connection
pub mod Accept
pub mod Stats
pub mod Publisher
