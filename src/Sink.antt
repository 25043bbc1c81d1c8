-- ===== src/Sink.antt =====
-- internal/sink: the sinks with their factories and the registry of these, and the worker pool
-- with its queue, its retries and its circuit breaker.
pub mod Settings
pub mod Redis
pub mod Kafka
pub mod Registry
pub mod Circuit
pub mod Pool
