-- ===== src/Db/PreKeys/Stored.antt =====
-- Which pre keys are found after `Put` and `Delete`.
use panthalassa.Base.{
  ◌≡◌, ◌⊎◌, true, false, Option, none, some, arith, Bytes, IsBytes, length, bytes_beq,
  bytes_beq_iff, if◌then◌else◌, Result, ok, err, >>=-eq-ok, inl, inr, ◌∙◌, sym, refl,
}
use panthalassa.Crypto.Aes.{AesError}
use panthalassa.Bolt.{Transactions, Buckets, change, update-change}
use panthalassa.Db.Vault.{Vault, DbError, not_found, seal, unseal-seal}
use panthalassa.Db.OneTimePreKeys.{KeyPair}
use panthalassa.Db.PreKeys.{no_key, created, put_body, put, has, get, delete_body, delete}

change_ok : {E S : Type 0} (f : S → Result E S) (s t : S) → change f s ≡ (ok tt, t) → f s ≡ ok t
unfolding change
change_ok f s t h = ground arith

module _ (T : Transactions DbError) (B : Buckets DbError) (V : Vault) where
  has-created :
      (j : Bytes) (s : Option B.Bucket) → has T B V j (some (created T B V s)) ≡ has T B V j s
  unfolding has created
  has-created j none = ground (arith, B.get-empty j)
  has-created j (some b) = refl

  put_ok :
      (random : Result AesError Bytes) (pair : KeyPair) (s t : Option B.Bucket)
      → put T B V random pair s ≡ (ok tt, t)
      → (raw : Bytes) × (c : B.Bucket) × (seal V random pair.private_key ≡ ok raw)
        × (B.put pair.public_key raw (created T B V s) ≡ ok c)
        × (t ≡ some c)
  unfolding put put_body
  put_ok random pair s t h =
      let body =
        change_ok (put_body T B V random pair) s t
          (sym (update-change T (put_body T B V random pair) s) ∙ h) in
      let (raw, e, r) = >>=-eq-ok (seal V random pair.private_key) _ body in
      let (c, e', r') = >>=-eq-ok (B.put pair.public_key raw (created T B V s)) _ r in
      (raw, c, e, e', ground arith)

  -- After `Put` without an error `Has` finds the key, `Get` returns its private key, which has 32
  -- bytes, and `Has` answers for every other key as before.
  pub get-put :
      (random : Result AesError Bytes) (pair : KeyPair) (s t : Option B.Bucket)
      → IsBytes pair.private_key
      → length pair.private_key ≡ 32
      → put T B V random pair s ≡ (ok tt, t)
      → (has T B V pair.public_key t ≡ true)
        × (get T B V pair.public_key t ≡ ok pair.private_key)
        × ((j : Bytes)
            → has T B V j t ≡ (if bytes_beq pair.public_key j then true else has T B V j s))
  unfolding has get
  get-put random pair s t bytes fits h =
      let (raw, c, e, p, tc) = put_ok random pair s t h in
      let k = pair.public_key in
      let same = (bytes_beq_iff k k).1 refl in
      let opened = unseal-seal V random pair.private_key raw bytes e in
      (
        ground (arith, B.get-put k k raw (created T B V s) c),
        ground (arith, B.get-put k k raw (created T B V s) c),
        λ j. ground (arith, B.get-put k j raw (created T B V s) c, has-created j s),
      )

  -- `Delete` returns no error, the key is not found any more, and every other key as before.
  has-delete :
      (k : Bytes) (s : Option B.Bucket)
      → ((delete T B V k s).0 ≡ ok tt)
        × ((j : Bytes)
            → has T B V j (delete T B V k s).1 ≡ (if bytes_beq k j then false else has T B V j s))
  unfolding delete has delete_body change
  has-delete k none = rw (update-change T (delete_body T B V k) none) (refl, λ j. ground arith)
  has-delete k (some b) =
      let (c, e) = B.delete_ok k b in
      rw (update-change T (delete_body T B V k) (some b))
        (ground arith, λ j. ground (arith, B.get-delete k j b c))

  -- `Get` of a key that `Has` does not find: an error where the bucket exists, and the zero key
  -- without an error where it does not.
  pub get_missing :
      (k : Bytes) (s : Option B.Bucket)
      → has T B V k s ≡ false
      → ((s ≡ none) × (get T B V k s ≡ ok no_key))
        ⊎ ((b : B.Bucket) × (s ≡ some b) × (get T B V k s ≡ err not_found))
  unfolding has get
  get_missing k none h = inl (refl, refl)
  get_missing k (some b) h = inr (b, refl, ground arith)
