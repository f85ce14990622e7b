-- ===== src/Db/Vault/Account.antt =====
-- The vault that an opened account gives: the AES functions of the key manager.
use panthalassa.Base.{
  ℕ, ◌≡◌, arith, Bytes, IsBytes, Result, ok, err, map_err, bytes_beq_iff, xor_stream_twice, refl,
  Result-cases, inl, inr,
}
use panthalassa.Crypto.Aes.{AesError, CipherText, ctr_encrypt, ctr_decrypt, Ciphers}
use panthalassa.Crypto.Scrypt.{Scrypt}
use panthalassa.KeyManager.{KeyManager, aes_encrypt, aes_decrypt, aes_secret}
use panthalassa.Db.Vault.{Vault, key_manager, json}

-- A cipher text that `CTREncrypt` returned is decrypted to its plain text.
ctr_encrypted :
    (C : Ciphers) (random : Result AesError Bytes) (text key : Bytes) (ct : CipherText)
    → IsBytes text
    → ctr_encrypt C random text key ≡ ok ct
    → ctr_decrypt C ct key ≡ ok text
unfolding ctr_encrypt ctr_decrypt
ctr_encrypted C (err e) text key ct b h = ground arith
ctr_encrypted C (ok iv) text key ct b h = ground (
  arith,
  (bytes_beq_iff ct.mac ct.mac).1 refl,
  xor_stream_twice (C.ctr_key_stream key iv) 0 text (C.ctr_key_stream_byte key iv) b,
)

module _ (S : Scrypt) (km : KeyManager) where
  -- What `AESEncrypt` returned for a text of octets without an error, `AESDecrypt` takes back to
  -- that text.
  pub aes_decrypt-encrypt :
      (random : Result AesError Bytes) (text : Bytes) (ct : CipherText)
      → IsBytes text
      → aes_encrypt S km random text ≡ ok ct
      → aes_decrypt S km ct ≡ ok text
  unfolding aes_encrypt aes_decrypt
  aes_decrypt-encrypt random text ct b h = elim (Result-cases (aes_secret km)) [
    | inr (e, bad) ↦ ground arith
    | inl (secret, e) ↦ ground (arith, ctr_encrypted S.ciphers random text secret ct b)
  ]

-- Go's `encoding/json` for the type `aes.CipherText`.
pub record CipherJson : Type 0 where
  pub marshal : CipherText → Result ℕ Bytes
  pub unmarshal : Bytes → Result ℕ CipherText
  pub unmarshal-marshal :
      (ct : CipherText) (raw : Bytes) → marshal ct ≡ ok raw → unmarshal raw ≡ ok ct

map_err_ok {ℓ κ μ} :
    {E : Type ℓ} {F : Type κ} {A : Type μ} (f : E → F) (r : Result E A) {a : A}
    → map_err f r ≡ ok a
    → r ≡ ok a
map_err_ok f (ok x) h = cc
map_err_ok f (err e) h = cc

module _ (S : Scrypt) (km : KeyManager) (J : CipherJson) where
  pub vault_decrypt-encrypt :
      (random : Result AesError Bytes) (text : Bytes) (ct : CipherText)
      → IsBytes text
      → map_err key_manager (aes_encrypt S km random text) ≡ ok ct
      → map_err key_manager (aes_decrypt S km ct) ≡ ok text
  vault_decrypt-encrypt random text ct b h =
      rw (aes_decrypt-encrypt S km random text ct b (map_err_ok key_manager _ h))

  pub vault_unmarshal-marshal :
      (ct : CipherText) (raw : Bytes)
      → map_err json (J.marshal ct) ≡ ok raw
      → map_err json (J.unmarshal raw) ≡ ok ct
  vault_unmarshal-marshal ct raw h = rw (J.unmarshal-marshal ct raw (map_err_ok json _ h))

  abbrev pub account_vault : Vault
  account_vault = record {
    encrypt = λ random text. map_err key_manager (aes_encrypt S km random text);
    decrypt = λ ct. map_err key_manager (aes_decrypt S km ct);
    marshal = λ ct. map_err json (J.marshal ct);
    unmarshal = λ raw. map_err json (J.unmarshal raw);
    decrypt-encrypt = vault_decrypt-encrypt;
    unmarshal-marshal = vault_unmarshal-marshal;
  }
