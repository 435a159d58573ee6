-- ===== src/Examples.antt =====
-- Runs at concrete inputs, and each result that has conditions at an input that meets them.
mod Frames
mod Chip
mod Line
mod Log
mod Logging
mod Recovery
mod Console
mod Sensors
mod Tasks
mod Bme
