-- ===== src/Agent.antt =====
-- internal/agent: the configuration, the loops, and how they run together.
pub mod Poll
pub mod Round
pub mod Run
pub mod Config
