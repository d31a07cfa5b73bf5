-- ===== src/Forward.antt =====
-- The data plane's limits (internal/forward).
pub mod Budget
