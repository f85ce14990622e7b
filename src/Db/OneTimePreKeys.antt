-- ===== src/Db/OneTimePreKeys.antt =====
-- db/one_time_pre_key_storage.go: private keys that are used once. The state is the top bucket of
-- the storage, `none` while it has not been created; `CreateBucketIfNotExists` of its constant name
-- does not fail. An update is a function of the state that bbolt commits or rolls back.
pub mod CutOnce
pub mod Rollback
use panthalassa.Base.{
  ℕ, ◌+◌, ◌%◌, ◌^◌, Option, none, some, List, [], ◌∷◌, Bytes, length, nat_beq, if◌then◌else◌,
  Result, ok, err, ◌>>=◌,
}
use panthalassa.Crypto.Aes.{AesError}
use panthalassa.Bolt.{Transactions, Buckets}
use panthalassa.Db.Vault.{Vault, DbError, invalid_private_key, seal}

pub record KeyPair : Type 0 where
  pub public_key : Bytes
  pub private_key : Bytes

module _ (T : Transactions DbError) (B : Buckets DbError) (V : Vault) where
  unfoldable pub create_if_missing : Option B.Bucket → B.Bucket
  create_if_missing none = B.empty
  create_if_missing (some b) = b

  -- `Delete`, whose error is only logged.
  unfoldable pub delete_logged : Bytes → B.Bucket → B.Bucket
  delete_logged k b = elim (B.delete k b) [ ok c ↦ c | err e ↦ b ]

  -- What `Cut` does with a decrypted entry.
  unfoldable pub cut_plain :
      Bytes → Bytes → B.Bucket → Result DbError (Option Bytes) × Option B.Bucket
  unfolding delete_logged
  cut_plain pub_key plain b =
      if nat_beq (length plain) 32
      then (ok (some plain), some (delete_logged pub_key b))
      else (err invalid_private_key, some (delete_logged pub_key b))

  -- What `Cut` does with the entry of its key: the error paths delete it before they return.
  unfoldable pub cut_entry :
      Bytes → Option Bytes → B.Bucket → Result DbError (Option Bytes) × Option B.Bucket
  unfolding cut_plain
  cut_entry pub_key none b = (ok none, some b)
  cut_entry pub_key (some raw) b = elim (V.unmarshal raw) [
    | err e ↦ (err e, some (delete_logged pub_key b))
    | ok ct ↦ elim (V.decrypt ct) [
      | err e ↦ (err e, some (delete_logged pub_key b))
      | ok plain ↦ cut_plain pub_key plain b
    ]
  ]

  unfoldable pub cut_update :
      Bytes → Option B.Bucket → Result DbError (Option Bytes) × Option B.Bucket
  unfolding create_if_missing cut_entry
  cut_update pub_key s = let b = create_if_missing s in cut_entry pub_key (B.get pub_key b) b

  unfoldable pub cut : Bytes → Option B.Bucket → Result DbError (Option Bytes) × Option B.Bucket
  cut pub_key = T.update (Option B.Bucket) (Option Bytes) (cut_update pub_key)

  -- `Count`, a `uint32` that is increased once for each entry.
  unfoldable pub count_entries : ℕ → List (Bytes × Bytes) → ℕ
  count_entries n [] = n
  count_entries n (e ∷ es) = count_entries ((n + 1) % 2 ^ 32) es

  unfoldable pub count : Option B.Bucket → Result DbError ℕ
  unfolding count_entries
  count none = ok 0
  count (some b) = ok (count_entries 0 (B.entries b))

  -- One round of the loop of `Put`.
  unfoldable pub put_pair : Result AesError Bytes → KeyPair → B.Bucket → Result DbError B.Bucket
  put_pair random pair b = do raw ← seal V random pair.private_key; B.put pair.public_key raw b

  -- The loop of `Put`; each round reads its own random bytes.
  unfoldable pub put_pairs :
      List (Result AesError Bytes × KeyPair) → B.Bucket → Result DbError B.Bucket
  unfolding put_pair
  put_pairs [] b = ok b
  put_pairs ((random, pair) ∷ rest) b = do c ← put_pair random pair b; put_pairs rest c

  unfoldable pub put_update :
      List (Result AesError Bytes × KeyPair)
      → Option B.Bucket
      → Result DbError (Unit {0}) × Option B.Bucket
  unfolding create_if_missing put_pairs
  put_update pairs s = elim (put_pairs pairs (create_if_missing s)) [
    | ok b ↦ (ok tt, some b)
    | err e ↦ (err e, s)
  ]

  unfoldable pub put :
      List (Result AesError Bytes × KeyPair)
      → Option B.Bucket
      → Result DbError (Unit {0}) × Option B.Bucket
  put pairs = T.update (Option B.Bucket) (Unit {0}) (put_update pairs)
