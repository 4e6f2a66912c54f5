-- ===== src/Schedule.antt =====
-- schedule/: schedules that the server runs, and the channels on which an imp hears them.
pub mod Register
pub mod Headers
pub mod Channel
pub mod Ticks
pub mod Firing
