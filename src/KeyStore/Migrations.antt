-- ===== src/KeyStore/Migrations.antt =====
-- The four migrations of keyStore/migration. Each derives its keys from the mnemonic, refuses to
-- go on where the store holds another value for them, and writes them. An error ends the migration
-- of the store, which is dropped, so the map that an error leaves is not kept.
use panthalassa.Base.{
  ℕ, Bool, String, none, some, Bytes, Assoc, lookup, insert, string_eq, bytes_beq, hex_encode, take,
  Result, ok, ◌>>=◌, ◌>>◌, guard, map_err, [], ◌∷◌,
}
use panthalassa.Bip32.{HdKeys, PathError, derive}

abbrev pub Keys : Type 0
Keys = Assoc String Bytes

-- What the third-party packages compute: go-bip39, go-bip32, the key generation of ed25519 and of
-- x3dh from a seed (public key first, private key second).
pub record Foreign : Type 1 where
  pub mnemonic_valid : Bytes → Bool
  pub new_seed : Bytes → String → Bytes
  pub hd_keys : HdKeys
  pub ed25519_generate : Bytes → Result ℕ (Bytes × Bytes)
  pub x3dh_generate : Bytes → Result ℕ (Bytes × Bytes)

pub data KeyStoreError : Type 0 where
  key_missing invalid_mnemonic mnemonic_panic nil_map_panic : KeyStoreError
  ethereum_mismatch ed25519_private_mismatch ed25519_public_mismatch : KeyStoreError
  chat_private_mismatch chat_public_mismatch encryption_key_mismatch : KeyStoreError
  foreign json_failed : ℕ → KeyStoreError
  path_failed : PathError → KeyStoreError

-- "m/100H/10H"
abbrev pub derivation_path : Bytes
derivation_path = b'm' ∷ b'/' ∷ b'1' ∷ b'0' ∷ b'0' ∷ b'H' ∷ b'/' ∷ b'1' ∷ b'0' ∷ b'H' ∷ []

abbrev pub ethereum_private_key : String
ethereum_private_key = "ethereum_private_key"

abbrev pub ed25519_private_key : String
ed25519_private_key = "ed_25519_private_key"

abbrev pub ed25519_public_key : String
ed25519_public_key = "ed_25519_public_key"

abbrev pub chat_private_key : String
chat_private_key = "chat_identity_curve25519_private_key"

abbrev pub chat_public_key : String
chat_public_key = "chat_identity_curve25519_public_key"

abbrev pub encryption_key : String
encryption_key = "encryption_key"

-- `if value, exist := keys[k]; exist && value != v { return keys, e }`
unfoldable pub check_key : String → Bytes → KeyStoreError → Keys → Result KeyStoreError (Unit {0})
check_key k v e keys = elim (lookup k keys) [ none ↦ ok tt | some w ↦ guard (bytes_beq w v) e ]

-- The writes of the ed25519 and the chat migration.
unfoldable pub write_ed25519 : Bytes × Bytes → Keys → Result KeyStoreError Keys
write_ed25519 (public, private) keys = do
  check_key ed25519_private_key (hex_encode private) ed25519_private_mismatch keys
  let with_private : Keys = insert ed25519_private_key (hex_encode private) keys
  check_key ed25519_public_key (hex_encode public) ed25519_public_mismatch with_private
  ok (insert ed25519_public_key (hex_encode public) with_private)

unfoldable pub write_chat : Bytes × Bytes → Keys → Result KeyStoreError Keys
write_chat (public, private) keys = do
  check_key chat_private_key (hex_encode private) chat_private_mismatch keys
  check_key chat_public_key (hex_encode public) chat_public_mismatch keys
  ok (
      insert chat_public_key (hex_encode public)
        (insert chat_private_key (hex_encode private) keys))

module _ (F : Foreign) where
  -- `Mnemonic.NewSeed`
  unfoldable pub seed : Bytes → String → Result KeyStoreError Bytes
  seed mnemonic password = do
    guard (F.mnemonic_valid mnemonic) mnemonic_panic
    ok (F.new_seed mnemonic password)

  unfoldable pub ethereum_key : Bytes → Result KeyStoreError Bytes
  unfolding seed
  ethereum_key mnemonic = do
    s ← seed mnemonic "coins"
    master ← map_err foreign (F.hd_keys.master_key s)
    k ← map_err path_failed (derive F.hd_keys derivation_path master)
    ok (hex_encode (F.hd_keys.key_bytes k))

  unfoldable pub ethereum_up : Bytes → Keys → Result KeyStoreError Keys
  ethereum_up mnemonic keys = do
    private_key ← ethereum_key mnemonic
    check_key ethereum_private_key private_key ethereum_mismatch keys
    ok (insert ethereum_private_key private_key keys)

  -- `Mnemonic.String`, which panics as `NewSeed` does, and the key pair.
  unfoldable pub ed25519_pair : Bytes → Result KeyStoreError (Bytes × Bytes)
  ed25519_pair mnemonic = do
    guard (F.mnemonic_valid mnemonic) mnemonic_panic
    map_err foreign (F.ed25519_generate (F.new_seed mnemonic "identity"))

  unfoldable pub ed25519_up : Bytes → Keys → Result KeyStoreError Keys
  unfolding write_ed25519
  ed25519_up mnemonic keys = do pair ← ed25519_pair mnemonic; write_ed25519 pair keys

  unfoldable pub chat_pair : Bytes → Result KeyStoreError (Bytes × Bytes)
  unfolding seed
  chat_pair mnemonic = do s ← seed mnemonic "signal"; map_err foreign (F.x3dh_generate s)

  unfoldable pub chat_up : Bytes → Keys → Result KeyStoreError Keys
  unfolding write_chat
  chat_up mnemonic keys = do pair ← chat_pair mnemonic; write_chat pair keys

  unfoldable pub encryption_secret : Bytes → Result KeyStoreError Bytes
  unfolding seed
  encryption_secret mnemonic = do s ← seed mnemonic encryption_key; ok (hex_encode (take 32 s))

  unfoldable pub encryption_key_up : Bytes → Keys → Result KeyStoreError Keys
  encryption_key_up mnemonic keys = do
    key ← encryption_secret mnemonic
    check_key encryption_key key encryption_key_mismatch keys
    ok (insert encryption_key key keys)
