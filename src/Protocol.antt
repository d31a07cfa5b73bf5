-- ===== src/Protocol.antt =====
-- The control and probe protocol (internal/protocol).
pub mod States
pub mod Transitions
pub mod Endpoint
pub mod Platform
pub mod Frames
pub mod ProbeAgent
