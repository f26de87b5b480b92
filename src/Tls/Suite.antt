-- ===== src/Tls/Suite.antt =====
-- src/tls/tls13/mod.rs: the cipher suites; src/tls/tls13/keyschedule.rs: the names of the hashes.
use rust_xhttp.Common.{ℕ, Option, none, some, if◌then◌else◌, ◌==◌, ◌≡◌, refl}

pub data HashAlg : Type 0 where
  sha256 sha384 : HashAlg

pub data CipherSuite : Type 0 where
  aes128_gcm_sha256 aes256_gcm_sha384 chacha20_poly1305_sha256 : CipherSuite

unfoldable pub from_u16 : ℕ → Option CipherSuite
from_u16 id =
    if id == 0x1301
    then some aes128_gcm_sha256
    else if id == 0x1302
    then some aes256_gcm_sha384
    else if id == 0x1303
    then some chacha20_poly1305_sha256
    else none

abbrev pub to_u16 : CipherSuite → ℕ
to_u16 aes128_gcm_sha256 = 0x1301
to_u16 aes256_gcm_sha384 = 0x1302
to_u16 chacha20_poly1305_sha256 = 0x1303

-- `CipherSuite::hash`
abbrev pub hash_of : CipherSuite → HashAlg
hash_of aes256_gcm_sha384 = sha384
hash_of aes128_gcm_sha256 = sha256
hash_of chacha20_poly1305_sha256 = sha256

abbrev pub key_len : CipherSuite → ℕ
key_len aes128_gcm_sha256 = 16
key_len aes256_gcm_sha384 = 32
key_len chacha20_poly1305_sha256 = 32

pub from_u16-to_u16 : (suite : CipherSuite) → from_u16 (to_u16 suite) ≡ some suite
unfolding from_u16
from_u16-to_u16 aes128_gcm_sha256 = refl
from_u16-to_u16 aes256_gcm_sha384 = refl
from_u16-to_u16 chacha20_poly1305_sha256 = refl
