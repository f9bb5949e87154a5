-- ===== src/Examples.antt =====
-- Concrete data, and the theorems at concrete inputs.
mod Libraries
mod Data
mod Witnesses
mod Handlers
mod Server
mod ServerLaws
mod JobLaws
mod Schedule
mod Interleavings
mod Setups
mod Runs
