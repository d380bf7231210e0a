-- ===== src/Http.antt =====
-- pkg/edgeview: the HTTP handlers (http_handler.go, http_cameras.go, http_analytics.go, ui_embed.go),
-- over the view service and the channel file.
pub mod Text
pub mod Page
pub mod Range
pub mod Auth
pub mod Cameras
pub mod Csv
pub mod Timelines
pub mod Analytics
pub mod Stats
pub mod Streams
pub mod Feed
mod Tests
