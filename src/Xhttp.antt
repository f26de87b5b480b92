-- ===== src/Xhttp.antt =====
-- The request layer: src/xhttp/.
pub mod Padding
pub mod Request
