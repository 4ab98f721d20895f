-- ===== src/LiveFeed.antt =====
-- shared/livefeed: the hub of each camera, the registry of hubs, the fan-out to TCP clients and the
-- HTTP camera API. An operation is one step; times are nanoseconds since 1970.
pub mod Hub
pub mod Registry
pub mod Broadcaster
pub mod Mjpeg
pub mod Http
