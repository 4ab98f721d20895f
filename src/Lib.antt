-- ===== src/Lib.antt =====
-- Verification of instachron, a set of Go services that take JPEG frames from cameras and pass
-- them on: tcp-camera-backend reads the cameras' TCP connections and publishes on a Unix socket;
-- camera-web-api, the restreamers and ffmpeg-streamer read from there or from one another over a
-- frame transport; camera-recorder writes timelapse segments.
--
-- Parts and files:
-- Wire, Wire/BigEndian, Wire/Stream, Wire/Messages: io.ReadFull, io.Writer and binary.BigEndian
-- as values, and what all message loops share (a codec, and the loop that reads until an error).
-- StreamProto: shared/streamproto/streamproto.go (WriteFrame is write_frame, ReadFrame is
-- read_frame). StreamProto/Transport is serve of tcpserver.go with connect of tcpupstream.go;
-- StreamProto/Server the client limit of TCPServer.Run; StreamProto/Upstream the waits of
-- TCPUpstream.Run; StreamProto/CameraId the text form of a CameraID.
-- FrameIpc: shared/frameipc/frameipc.go. FrameIpc/Client is client.go with serveConsumer of
-- services/tcp-camera-backend/internal/publisher/publisher.go.
-- DropChan: shared/dropchan/dropchan.go. DropChan/Window is its abstract view,
-- DropChan/Concurrent its three selects as interleaved steps, DropChan/Offer the drop-newest
-- sends of other packages.
-- LiveFeed: shared/livefeed, with Hub for hub.go and camerainfo.go, Registry for registry.go,
-- Broadcaster for broadcaster.go and Http for httpapi.go; LiveFeed/Mjpeg is
-- shared/mjpeg/mjpeg.go, and LiveFeed/Mjpeg/Parts a client that reads it.
-- Backend: services/tcp-camera-backend, with Protocol for internal/protocol/protocol.go and
-- readFrame, Connection for handleConnection, Accept for ListenAndServe, Stats for stats.go and
-- Publisher for the fan-out of publisher.go. Backend/Wire says what a camera sends.
-- Streamer: services/ffmpeg-streamer, with Cache for internal/ipcclient/reader.go, Compose for
-- internal/compose/compose.go and Feed for internal/app/feed.go.
-- Recorder: services/camera-recorder, with Sampling for keepEvery and shouldKeep, Camera for the
-- rest of internal/recorder/camera.go, Sessions for sessions.go, Storage for internal/storage,
-- Config for internal/config, Api for internal/app/handler.go and internal/usage, and Metrics for
-- internal/metrics/metrics.go. The Store and the encoder are the record Services, which may
-- answer anything; Camera/Protocol says in which order they are to be called. Storage/Disk is
-- package os on a tree of directories, with an outcome for each call (Disk/Outcomes);
-- Storage/Paths is filepath.Join; Storage/Local is local.go on both, and Storage/Segments,
-- Listing, Pruning and Oldest are about its List and Prune.
-- EnvConf, Duration: shared/envconf/envconf.go, and time.ParseDuration.
-- Detector: services/camera-web-restream-detector-api/internal/detect, with Output for
-- parseOutput, toOriginal and letterbox, Layouts for the two layouts of the output, Suppression
-- for nms, Model for classes.go, allowedClassIDs and probeModel, and Frames for Detect and
-- Process.
-- Enhancer: services/camera-web-restream-enhancer-api/internal/enhance/enhance.go.
-- WebApi/Rotation: services/camera-web-api/internal/rotation/rotation.go.
-- Upscaler: services/camera-web-restream-upscaler-api/internal/pipeline/pool.go, with Passes for
-- stepsFor and Pool for the queue and a worker.
-- Base, Text, Strconv, Sorting: results, maps, lists, integers, strings, strconv and sort. Tests:
-- the theorems at concrete inputs.
--
-- Conventions. A byte, a length and a time span in nanoseconds are natural numbers, and a number
-- that a setting or a query may make negative is an integer (Base/Int); conversions to a fixed
-- width are written out (% 2 ^ w). A time.Time is the number of nanoseconds since Go's zero Time.
-- A channel is the list of its buffered values. A lock makes an operation a step; where code runs
-- without one, its steps are a data type and the theorems are about every sequence of them. A
-- loop that reads a connection runs on fuel; one round more than there are bytes is enough, since
-- every round but the last takes a byte, and the theorems named _total say so. The loop of
-- shouldKeep runs on ts + 2 rounds, which is enough with a positive interval. The int64 counters
-- of the recorder's metrics, and the product in keepEvery, have no bound here.
--
-- A call of package os takes its outcome from a list, which may say that it fails; theorems that
-- need a call to succeed say so. float32 and float64 are a type with the operations that the code
-- uses, and a theorem that needs their order takes it as IsOrdered, which values that are no NaN
-- satisfy; IsScaling (Streamer/Compose/Fit) says that rounding does not carry a scaled size over
-- its bound. Go visits a map in any order: the order is an argument of nms.
--
-- Not modelled: process start-up, log lines, JPEG and JSON codecs, the ffmpeg process, image
-- filters, the ONNX runtime, and drawing.
pub mod Base
pub mod Text
pub mod Strconv
pub mod Sorting
pub mod Wire
pub mod Detector
pub mod DropChan
pub mod Duration
pub mod EnvConf
pub mod StreamProto
pub mod FrameIpc
pub mod LiveFeed
pub mod Backend
pub mod Streamer
pub mod Recorder
pub mod WebApi
pub mod Tests
pub mod Upscaler
pub mod Enhancer
