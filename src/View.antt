-- ===== src/View.antt =====
-- pkg/edgeview: playback of recorded segments.
pub mod Source
pub mod Resolve
pub mod Cameras
pub mod Session
mod Tests
