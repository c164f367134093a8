-- ===== src/Inference.antt =====
-- services/inference.py: the state that a request meets, and the handler. The proofs are in the
-- children.
pub mod State
pub mod Handler
pub mod Privacy
pub mod Errors
pub mod Refusals
pub mod Rows
pub mod Logging
pub mod Caching
