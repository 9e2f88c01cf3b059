-- ===== src/Tests.antt =====
-- Runs at concrete inputs: the theorems at values where their conditions hold.
mod World
mod Pages
mod Polling
mod Queries
mod Outputs
mod Model
mod Batch
mod Adapter
mod Http
mod Echo
mod Events
mod Fetches
mod Inputs
mod Workers
mod Wiring
mod Release
