-- ===== src/Db/OneTimePreKeys/Rollback.antt =====
-- An update of the one time pre keys that returns an error is rolled back.
use panthalassa.Base.{
  ◌≡◌, ◌≢◌, ◌⊎◌, Option, some, List, arith, Bytes, length, Result, ok, err, inl, inr, Result-cases,
}
use panthalassa.Crypto.Aes.{AesError}
use panthalassa.Bolt.{Transactions, Buckets}
use panthalassa.Db.Vault.{Vault, DbError, unseal, invalid_private_key}
use panthalassa.Db.OneTimePreKeys.{
  KeyPair, cut, cut_update, put, put_update, put_pairs, create_if_missing,
}

module _ (T : Transactions DbError) (B : Buckets DbError) (V : Vault) where
  -- `Cut` means to drop an entry that cannot be used, and deletes it before it returns the error;
  -- as the error rolls the update back, the entry stays. An entry that cannot be read, cannot be
  -- decrypted, or is not 32 bytes long gives an error at each `Cut`, and the storage never changes.
  pub cut_broken :
      (k raw : Bytes) (b : B.Bucket)
      → B.get k b ≡ some raw
      → ((p : Bytes) → unseal V raw ≡ ok p → length p ≢ 32)
      → (e : DbError) × (cut T B V k (some b) ≡ (err e, some b))
  unfolding cut
  cut_broken k raw b g bad = elim (Result-cases (unseal V raw)) [
    | inr (e, u) ↦ (
      e,
      T.update_rollback _ _ (cut_update T B V k) (some b) (cut_update T B V k (some b)).1 e
          (unfold cut_update unseal in ground arith),
    )
    | inl (p, u) ↦ (
      invalid_private_key,
      T.update_rollback _ _ (cut_update T B V k) (some b) (cut_update T B V k (some b)).1
          invalid_private_key (unfold cut_update unseal in ground (arith, bad p u)),
    )
  ]

  -- `Put` stores all pairs or none: where one of them fails, the storage is as it was.
  pub put_all_or_nothing :
      (ps : List (Result AesError Bytes × KeyPair)) (s : Option B.Bucket)
      → ((c : B.Bucket) × (put_pairs T B V ps (create_if_missing T B V s) ≡ ok c)
          × (put T B V ps s ≡ (ok tt, some c)))
        ⊎ ((e : DbError) × (put_pairs T B V ps (create_if_missing T B V s) ≡ err e)
            × (put T B V ps s ≡ (err e, s)))
  unfolding put
  put_all_or_nothing ps s = elim (Result-cases (put_pairs T B V ps (create_if_missing T B V s))) [
    | inl (c, e) ↦ inl (
      c,
      e,
      T.update_commit _ _ (put_update T B V ps) s (some c) tt (unfold put_update in ground arith),
    )
    | inr (e, bad) ↦ inr (
      e,
      bad,
      T.update_rollback _ _ (put_update T B V ps) s s e (unfold put_update in ground arith),
    )
  ]
