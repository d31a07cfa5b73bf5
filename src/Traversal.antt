-- ===== src/Traversal.antt =====
-- NAT traversal (internal/traversal): socket ownership and the wire codecs of the mechanisms.
pub mod PortRegistry
pub mod NatPmp
pub mod Pcp
pub mod Stun
