-- ===== src/Examples.antt =====
-- Concrete runs of the models, and the theorems at concrete inputs.
mod Session
mod Buffer
mod Vless
mod Encryption
mod Vision
mod Xhttp
mod Xudp
mod Tls
mod Record
mod Handshake
mod Config
mod Origin
mod Table
