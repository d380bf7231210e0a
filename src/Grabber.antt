-- ===== src/Grabber.antt =====
-- internal/avgrabber: the bridge to the grabber library.
pub mod Payload
pub mod Frame
pub mod Session
pub mod Demuxer
mod Tests
