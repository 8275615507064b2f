-- ===== src/Core.antt =====
-- scrapeforge/core
pub mod Models
pub mod CircuitBreaker
pub mod RateLimiter
pub mod ProxyRotator
pub mod Registry
pub mod Queue
pub mod Engine
pub mod Db
pub mod Storage
pub mod Jsonl
pub mod ObjectStore
pub mod Llm
