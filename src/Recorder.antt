-- ===== src/Recorder.antt =====
-- pkg/recorder: the segments of a camera, their index, their retention and the recording manager.
pub mod Entry
pub mod Stamp
pub mod Retention
pub mod Table
pub mod Index
pub mod Sweep
pub mod Manager
mod Tests
