-- ===== src/LlmClient.antt =====
-- services/llm_client.py: the circuit breaker, the payload readers, the retry loop and the
-- completion. The proofs are in the children that are named for what they prove.
pub mod Breaker
pub mod Payload
pub mod Transport
pub mod Retry
pub mod Completion
