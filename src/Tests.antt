-- ===== src/Tests.antt =====
-- Runs of the model on concrete inputs.
mod Fixtures
mod Requests
mod Completions
mod Services
mod Indicators
mod Checkpoints
mod Wires
mod Runs
mod Routes
mod Exports
mod Commands
mod Configured
