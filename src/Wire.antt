-- ===== src/Wire.antt =====
-- What the three wire formats stand on: Go's encoding/binary (big endian) and io.Reader, io.Writer
-- and io.ReadFull, as the readers and writers of shared/ and of tcp-camera-backend use them.
pub mod BigEndian
pub mod Stream
pub mod Messages
