-- ===== src/Tls.antt =====
-- TLS: src/tls/.
pub mod Messages
pub mod ClientHello
pub mod Suite
pub mod Record
pub mod Schedule
pub mod Flight
pub mod Certificate
pub mod Handshake
