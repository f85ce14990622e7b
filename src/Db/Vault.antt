-- ===== src/Db/Vault.antt =====
-- What the storages of db use of the key manager and of crypto/aes: `AESEncrypt` and `AESDecrypt`
-- under the account's secret, and the JSON form of a cipher text.
pub mod Account
use panthalassa.Base.{ℕ, ◌≡◌, Bytes, IsBytes, Result, ok, ◌>>=◌, >>=-eq-ok, arith}
use panthalassa.Crypto.Aes.{AesError, CipherText}
use panthalassa.KeyManager.{KeyManagerError}
use panthalassa.Identity.{IdentityError}

pub data DbError : Type 0 where
  key_manager : KeyManagerError → DbError
  json bolt : ℕ → DbError
  not_32_bytes not_found invalid_message invalid_amount invalid_base_id : DbError
  invalid_private_key nil_panic invalid_signature : DbError
  identity : IdentityError → DbError

-- Parameters and laws: `encrypt` reads the bytes of an IV from the random reader.
pub record Vault : Type 0 where
  pub encrypt : Result AesError Bytes → Bytes → Result DbError CipherText
  pub decrypt : CipherText → Result DbError Bytes
  pub marshal : CipherText → Result DbError Bytes
  pub unmarshal : Bytes → Result DbError CipherText
  pub decrypt-encrypt :
      (random : Result AesError Bytes) (text : Bytes) (ct : CipherText)
      → IsBytes text
      → encrypt random text ≡ ok ct
      → decrypt ct ≡ ok text
  pub unmarshal-marshal :
      (ct : CipherText) (raw : Bytes) → marshal ct ≡ ok raw → unmarshal raw ≡ ok ct

-- `AESEncrypt` and `Marshal`, as each `Put` does.
unfoldable pub seal : Vault → Result AesError Bytes → Bytes → Result DbError Bytes
seal V random text = do ct ← V.encrypt random text; V.marshal ct

-- `Unmarshal` and `AESDecrypt`, as each `Get` does.
unfoldable pub unseal : Vault → Bytes → Result DbError Bytes
unseal V raw = do ct ← V.unmarshal raw; V.decrypt ct

-- What was sealed is unsealed.
pub unseal-seal :
    (V : Vault) (random : Result AesError Bytes) (text raw : Bytes)
    → IsBytes text
    → seal V random text ≡ ok raw
    → unseal V raw ≡ ok text
unfolding seal unseal
unseal-seal V random text raw b h =
    let (ct, e, m) = >>=-eq-ok (V.encrypt random text) V.marshal h in
    ground (arith, V.decrypt-encrypt random text ct b, V.unmarshal-marshal ct raw)
