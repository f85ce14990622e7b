-- ===== src/Crypto.antt =====
-- crypto/aes and crypto/scrypt.
pub mod Aes
pub mod Scrypt
