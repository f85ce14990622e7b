-- ===== src/KeyManager.antt =====
-- keyManager/keyManager.go: the account, a key store that is encrypted with a password, beside the
-- password that is encrypted with the mnemonic.
pub mod Backup
pub mod Ethereum
use panthalassa.Base.{
  ℕ, String, Option, none, some, Bytes, bytes_beq, length, nat_beq, leb, take, Result, ok, ◌>>=◌,
  ◌>>◌, guard, map_err, HexError, hex_decode, if◌then◌else◌,
}
use panthalassa.Crypto.Aes.{AesError, CipherText, ctr_encrypt, ctr_decrypt}
use panthalassa.Crypto.Scrypt.{
  Scrypt, ScryptError, ScryptText, new_cipher_text, decrypt_cipher_text,
}
use panthalassa.KeyStore.Migrations.{
  Foreign, KeyStoreError, encryption_key, ed25519_private_key, ed25519_public_key, chat_private_key,
  chat_public_key,
}
use panthalassa.KeyStore.{Store, StoreJson, get_key, marshal_store, unmarshal_store, mnemonic_text}

pub record Account : Type 0 where
  pub password : ScryptText
  pub encrypted_key_store : ScryptText
  pub version : ℕ

pub record KeyManager : Type 0 where
  pub key_store : Store
  pub account : Option Account

pub data KeyManagerError : Type 0 where
  password_mismatch secret_length chat_public_length slice_panic : KeyManagerError
  scrypt : ScryptError → KeyManagerError
  key_store_error : KeyStoreError → KeyManagerError
  hex : HexError → KeyManagerError
  aes : AesError → KeyManagerError
  ecdsa : ℕ → KeyManagerError

unfoldable pub create_from_key_store : Store → KeyManager
create_from_key_store ks = record { key_store = ks; account = none }

-- A hexadecimal value of the key store.
unfoldable pub hex_key : KeyManager → String → Result KeyManagerError Bytes
hex_key km name = do
  text ← map_err key_store_error (get_key km.key_store name)
  map_err hex (hex_decode text)

unfoldable pub aes_secret : KeyManager → Result KeyManagerError Bytes
unfolding hex_key
aes_secret km = do
  raw ← hex_key km encryption_key
  guard (nat_beq (length raw) 32) secret_length
  ok raw

-- `ChatIdKeyPair` tests the length of the array `priv`, which is always 32, and not that of the
-- decoded private key. What the slice `rawPriv[:32]` of a shorter one gives, a panic or bytes beyond
-- its end, rests on the capacity that the decoder left: it is the argument `past_end`.
unfoldable pub chat_id_key_pair :
    (Bytes → Result KeyManagerError Bytes) → KeyManager → Result KeyManagerError (Bytes × Bytes)
unfolding hex_key
chat_id_key_pair past_end km = do
  raw_private ← hex_key km chat_private_key
  raw_public ← hex_key km chat_public_key
  guard (nat_beq (length raw_public) 32) chat_public_length
  private ← if leb 32 (length raw_private) then ok (take 32 raw_private) else past_end raw_private
  ok (private, take 32 raw_public)

unfoldable pub identity_public_key : KeyManager → Result KeyManagerError Bytes
identity_public_key km = map_err key_store_error (get_key km.key_store ed25519_public_key)

unfoldable pub identity_private_key : KeyManager → Result KeyManagerError Bytes
identity_private_key km = map_err key_store_error (get_key km.key_store ed25519_private_key)

-- `IdentitySign`, with the signature of the package ed25519 as an argument.
unfoldable pub identity_sign :
    (Bytes → Bytes → Bytes) → KeyManager → Bytes → Result KeyManagerError Bytes
unfolding hex_key
identity_sign sign km text = do key ← hex_key km ed25519_private_key; ok (sign key text)

module _ (S : Scrypt) where
  unfoldable pub aes_decrypt : KeyManager → CipherText → Result KeyManagerError Bytes
  unfolding aes_secret
  aes_decrypt km ct = do secret ← aes_secret km; map_err aes (ctr_decrypt S.ciphers ct secret)

  unfoldable pub aes_encrypt :
      KeyManager → Result AesError Bytes → Bytes → Result KeyManagerError CipherText
  unfolding aes_secret
  aes_encrypt km random_iv text = do
    secret ← aes_secret km
    map_err aes (ctr_encrypt S.ciphers random_iv text secret)

  module _ (F : Foreign) (J : StoreJson) where
    unfoldable pub open_with_password : Account → Bytes → Result KeyManagerError KeyManager
    open_with_password account pw = do
      json ← map_err scrypt (decrypt_cipher_text S account.encrypted_key_store pw)
      key_store ← map_err key_store_error (unmarshal_store F J json)
      ok (record { key_store = key_store; account = some account })

    unfoldable pub open_with_mnemonic : Account → Bytes → Result KeyManagerError KeyManager
    unfolding open_with_password
    open_with_mnemonic account mnemonic = do
      pw ← map_err scrypt (decrypt_cipher_text S account.password mnemonic)
      open_with_password account pw

    -- The salts and IVs of the two encryptions are the random bytes that they read.
    unfoldable pub export :
        Bytes × Bytes × Bytes × Bytes → KeyManager → Bytes → Bytes → Result KeyManagerError Account
    export (salt1, iv1, salt2, iv2) km pw pw_confirm = do
      guard (bytes_beq pw pw_confirm) password_mismatch
      json ← map_err key_store_error (marshal_store F J km.key_store)
      store ← map_err scrypt (new_cipher_text S (ok salt1) (ok iv1) json pw)
      mnemonic ← map_err key_store_error (mnemonic_text F km.key_store.mnemonic)
      password ← map_err scrypt (new_cipher_text S (ok salt2) (ok iv2) pw mnemonic)
      ok (record { password = password; encrypted_key_store = store; version = 2 })
