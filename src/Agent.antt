-- ===== src/Agent.antt =====
-- The Agent's own state machines (internal/agent).
pub mod Activation
pub mod Localstate
