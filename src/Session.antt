-- ===== src/Session.antt =====
-- The session layer: src/session/.
pub mod Reorder
pub mod Downlink
pub mod Table
