-- ===== src/KeyManager/Ethereum.antt =====
-- keyManager/keyManager.go: what the account's Ethereum key is used for. The curve of the package
-- go-ethereum is a parameter; a parsed key is left as the bytes it stands for.
use panthalassa.Base.{ℕ, Bytes, hex_encode, Result, ok, ◌>>=◌, map_err}
use panthalassa.KeyStore.Migrations.{ethereum_private_key}
use panthalassa.KeyStore.{get_key}
use panthalassa.KeyManager.{KeyManager, KeyManagerError, key_store_error, ecdsa}

-- `HexToECDSA`, `PubkeyToAddress` with `String`, `CompressPubkey`, `Sign`.
pub record Ecdsa : Type 0 where
  pub hex_to_ecdsa : Bytes → Result ℕ Bytes
  pub address : Bytes → Bytes
  pub compress_pubkey : Bytes → Bytes
  pub sign : Bytes → Bytes → Result ℕ Bytes

unfoldable pub get_ethereum_private_key : KeyManager → Result KeyManagerError Bytes
get_ethereum_private_key km = map_err key_store_error (get_key km.key_store ethereum_private_key)

module _ (E : Ecdsa) where
  unfoldable pub get_ethereum_address : KeyManager → Result KeyManagerError Bytes
  unfolding get_ethereum_private_key
  get_ethereum_address km = do
    text ← get_ethereum_private_key km
    key ← map_err ecdsa (E.hex_to_ecdsa text)
    ok (E.address key)

  unfoldable pub get_ethereum_public_key : KeyManager → Result KeyManagerError Bytes
  unfolding get_ethereum_private_key
  get_ethereum_public_key km = do
    text ← get_ethereum_private_key km
    key ← map_err ecdsa (E.hex_to_ecdsa text)
    ok (hex_encode (E.compress_pubkey key))

  unfoldable pub ethereum_sign : KeyManager → Bytes → Result KeyManagerError Bytes
  unfolding get_ethereum_private_key
  ethereum_sign km text = do
    private ← get_ethereum_private_key km
    key ← map_err ecdsa (E.hex_to_ecdsa private)
    map_err ecdsa (E.sign text key)
