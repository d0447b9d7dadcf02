-- ===== src/Service.antt =====
-- internal/service: the operations that the handlers and the timers call.
pub mod Config
pub mod Scoring
pub mod Suspension
pub mod Questions
pub mod Polling
pub mod Answers
pub mod Timers
pub mod Rootnet
pub mod Onchain
pub mod Settlement
