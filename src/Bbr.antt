-- ===== src/Bbr.antt =====
-- The congestion control of app/transport/bbr/bbr.go. A float64 and its operations are a parameter, and the wall
-- clock is an argument, in nanoseconds since the zero time. Durations are numbers, since none that is measured is
-- negative.
pub mod State
pub mod Update
pub mod Events
pub mod Modes
pub mod Window
pub mod Filters
mod Tests
