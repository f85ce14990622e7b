-- ===== src/Crypto/Scrypt.antt =====
-- crypto/scrypt/scrypt.go: encryption under a password. The key derivation of the package scrypt is
-- a parameter, and what the random readers give is an argument.
pub mod RoundTrip
use panthalassa.Base.{
  ℕ, Option, none, some, [], Bytes, length, leb, nat_beq, take, if◌then◌else◌, Result, ok, err,
  ◌>>=◌, ◌>>◌, guard, map_err,
}
use panthalassa.Crypto.Aes.{Ciphers, AesError, CipherText, ctr_encrypt, ctr_decrypt, cfb_decrypt}

pub record Scrypt : Type 0 where
  pub ciphers : Ciphers
  -- `scrypt.Key(password, salt, N, r, p, keyLen)`
  pub derive_key : Bytes → Bytes → ℕ → ℕ → ℕ → ℕ → Result ℕ Bytes
  -- What `key[:32]` gives for a shorter key: it rests on the capacity that the package left, and
  -- `none` is a panic.
  pub past_end : Bytes → Option Bytes

pub data ScryptError : Type 0 where
  key_length short_key_panic : ScryptError
  foreign : ℕ → ScryptError
  aes : AesError → ScryptError

pub record Key : Type 0 where
  pub n : ℕ
  pub r : ℕ
  pub p : ℕ
  pub key_len : ℕ
  pub salt : Bytes
  pub key : Bytes

pub record ScryptText : Type 0 where
  pub cipher_text : CipherText
  pub scrypt_key : Key
  pub version : ℕ

-- The zero value of an AES cipher text.
abbrev pub no_cipher_text : CipherText
no_cipher_text = record { iv = []; cipher_text = []; mac = []; version = 0 }

module _ (S : Scrypt) where
  unfoldable pub make_scrypt_key : Result ScryptError Bytes → Bytes → Result ScryptError Key
  make_scrypt_key random_salt pw = do
    salt ← random_salt
    key ← map_err foreign (S.derive_key pw salt 16384 8 1 32)
    guard (nat_beq (length key) 32) key_length
    ok (record { n = 16384; r = 8; p = 1; key_len = 32; salt = salt; key = key })

  -- The error of `CTREncrypt` is dropped: the value beside it is used in any case.
  unfoldable pub value_of : Result AesError CipherText → CipherText
  value_of (ok ct) = ct
  value_of (err e) = no_cipher_text

  unfoldable pub new_cipher_text :
      Result ScryptError Bytes
      → Result AesError Bytes
      → Bytes
      → Bytes
      → Result ScryptError ScryptText
  unfolding make_scrypt_key value_of
  new_cipher_text random_salt random_iv plain_text password = do
    derived ← make_scrypt_key random_salt password
    let cipher_text : CipherText = value_of (ctr_encrypt S.ciphers random_iv plain_text derived.key)
    ok (record { cipher_text = cipher_text; scrypt_key = derived; version = 1 })

  unfoldable pub decrypt_with : ScryptText → Bytes → Result AesError Bytes
  decrypt_with ct secret =
      if nat_beq ct.version 0
      then cfb_decrypt S.ciphers ct.cipher_text secret
      else ctr_decrypt S.ciphers ct.cipher_text secret

  -- The slice `key[:32]`.
  unfoldable pub first_32 : Bytes → Result ScryptError Bytes
  first_32 key =
      if leb 32 (length key)
      then ok (take 32 key)
      else elim (S.past_end key) [ none ↦ err short_key_panic | some bytes ↦ ok bytes ]

  unfoldable pub decrypt_cipher_text : ScryptText → Bytes → Result ScryptError Bytes
  unfolding decrypt_with first_32
  decrypt_cipher_text ct password = do
    key ← map_err foreign (
        S.derive_key password ct.scrypt_key.salt ct.scrypt_key.n ct.scrypt_key.r ct.scrypt_key.p
          ct.scrypt_key.key_len)
    secret ← first_32 key
    map_err aes (decrypt_with ct secret)
