-- ===== src/Db/PreKeys.antt =====
-- db/pre_key_storage.go: the private keys of the pre keys, under their public keys. The state is the
-- bucket of the storage, `none` while it has not been created.
pub mod Stored
use panthalassa.Base.{
  Bool, true, false, Option, none, some, Bytes, length, nat_beq, replicate, Result, ok, err, ◌>>=◌,
  ◌>>◌, guard,
}
use panthalassa.Crypto.Aes.{AesError}
use panthalassa.Bolt.{Transactions, Buckets, change}
use panthalassa.Db.Vault.{Vault, DbError, not_found, invalid_private_key, seal, unseal}
use panthalassa.Db.OneTimePreKeys.{KeyPair}

-- The zero value of `x3dh.PrivateKey`.
abbrev pub no_key : Bytes
no_key = replicate 32 0

module _ (T : Transactions DbError) (B : Buckets DbError) (V : Vault) where
  unfoldable pub created : Option B.Bucket → B.Bucket
  created none = B.empty
  created (some b) = b

  unfoldable pub put_body :
      Result AesError Bytes → KeyPair → Option B.Bucket → Result DbError (Option B.Bucket)
  unfolding created
  put_body random pair s = do
    raw ← seal V random pair.private_key
    b ← B.put pair.public_key raw (created s)
    ok (some b)

  unfoldable pub put :
      Result AesError Bytes
      → KeyPair
      → Option B.Bucket
      → Result DbError (Unit {0}) × Option B.Bucket
  put random pair = T.update (Option B.Bucket) (Unit {0}) (change (put_body random pair))

  unfoldable pub has : Bytes → Option B.Bucket → Bool
  has key none = false
  has key (some b) = elim (B.get key b) [ none ↦ false | some raw ↦ true ]

  -- The decryption of a stored key.
  unfoldable pub read_key : Bytes → Result DbError Bytes
  read_key raw = do
    plain ← unseal V raw
    guard (nat_beq (length plain) 32) invalid_private_key
    ok plain

  unfoldable pub get : Bytes → Option B.Bucket → Result DbError Bytes
  unfolding read_key
  get key none = ok no_key
  get key (some b) = elim (B.get key b) [ none ↦ err not_found | some raw ↦ read_key raw ]

  unfoldable pub delete_body : Bytes → Option B.Bucket → Result DbError (Option B.Bucket)
  delete_body key none = ok none
  delete_body key (some b) = do c ← B.delete key b; ok (some c)

  unfoldable pub delete : Bytes → Option B.Bucket → Result DbError (Unit {0}) × Option B.Bucket
  delete key = T.update (Option B.Bucket) (Unit {0}) (change (delete_body key))
