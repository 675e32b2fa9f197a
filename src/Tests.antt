-- ===== src/Tests.antt =====
-- Runs at concrete inputs.
mod Data
mod Objects
mod Handlers
mod Lifecycles
mod Steps
mod Start
mod Benchmarks
mod Files
mod Buses
mod Streams
mod Programs
mod Descriptors
