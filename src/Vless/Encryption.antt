-- ===== src/Vless/Encryption.antt =====
-- The encryption of VLESS: src/vless/encryption/.
pub mod Record
pub mod Xor
pub mod Stream
