-- ===== src/Tests.antt =====
-- Runs of the model at fixed inputs, and the theorems at inputs that meet their hypotheses.
mod Fixtures
pub mod Queries
pub mod Responses
pub mod Routes
mod Wrapping
mod Grouping
mod Configured
mod Serving
mod Served
mod Messages
