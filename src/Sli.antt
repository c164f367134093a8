-- ===== src/Sli.antt =====
-- The pipeline of service-level indicators, langfuse-sli-pipeline/src/gateway_sli.
pub mod Times
pub mod Models
pub mod Quality
pub mod Langfuse
pub mod Pipeline
pub mod Governance
pub mod Normalize
pub mod Histogram
pub mod Aggregation
pub mod Emit
pub mod Checkpoint
pub mod Cli
pub mod FileSource
