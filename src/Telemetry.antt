-- ===== src/Telemetry.antt =====
-- telemetry/collection.go and telemetry/telemetry.go. `Defs` has the calls that collect, `Bounds` is
-- about the size of the buffer. `Sending` has the requests of one update, `Emission` the steps of
-- the updates.
pub mod Defs
pub mod Bounds
pub mod Sending
pub mod Emission
pub mod Cycles
pub mod Stopping
pub mod Schedule
pub mod Disabling
mod Tests
