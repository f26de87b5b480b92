-- ===== src/Vless.antt =====
-- The VLESS protocol: src/vless/.
pub mod Encryption
pub mod Vision
pub mod Address
pub mod Addons
pub mod Validator
pub mod Header
