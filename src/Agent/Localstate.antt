-- ===== src/Agent/Localstate.antt =====
-- internal/agent/localstate: the Agent's durable store.
pub mod Storage
pub mod Fences
pub mod Command
pub mod Journal
pub mod Outbox
pub mod Operations
pub mod Slots
pub mod Events
pub mod Memory
pub mod Lifecycle
