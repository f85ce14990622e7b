-- ===== src/Db/ChatMessages/Persist.antt =====
-- What `persistMessage` stores, and where.
use panthalassa.Base.{
  ℕ, zero, suc, ◌+◌, ◌%◌, ◌^◌, ◌<◌, ◌≡◌, refl, Option, none, some, Bytes, arith, put_uint64, uint64,
  bytes_beq, bytes_beq_iff, if◌then◌else◌, Result, ok, err, >>=-eq-ok, map_err,
}
use panthalassa.Crypto.Aes.{AesError}
use panthalassa.Bolt.{Transactions, Buckets, Nested}
use panthalassa.Db.Vault.{Vault, DbError, json, seal, unseal, unseal-seal}
use panthalassa.Db.Message.{Message}
use panthalassa.Db.ChatMessages.{
  MessageJson, PersistedEvent, find_key, create_chats, bucket_or_empty, store_message, store_in,
  read_message,
}

marshal_ok {ℓ} : {A : Type ℓ} (r : Result ℕ A) {a : A} → map_err json r ≡ ok a → r ≡ ok a
marshal_ok (ok x) h = cc
marshal_ok (err e) h = cc

module _ (T : Transactions DbError) (B : Buckets DbError) (N : Nested DbError B.Bucket B.empty)
    (V : Vault) (J : MessageJson) where
  -- The messages of a partner.
  unfoldable pub bucket_at : Bytes → Option N.Outer → B.Bucket
  bucket_at partner none = B.empty
  bucket_at partner (some o) = bucket_or_empty T B N V J (N.bucket partner o)

  -- The stored bytes of a message.
  unfoldable pub raw_at : Bytes → ℕ → Option N.Outer → Option Bytes
  raw_at partner db_id s = B.get (put_uint64 db_id) (bucket_at partner s)

  -- Where a message goes: its time, or one later if that is taken.
  unfoldable pub slot : Bytes → ℕ → Option N.Outer → ℕ
  slot partner created s = elim (raw_at partner created s) [
    | none ↦ created
    | some raw ↦ (created + 1) % 2 ^ 64
  ]

  find_key_again :
      (tries created : ℕ) (b : B.Bucket)
      → find_key T B N V J tries created (put_uint64 ((created + 1) % 2 ^ 64)) b
        ≡ put_uint64 ((created + 1) % 2 ^ 64)
  unfolding find_key
  find_key_again zero created b = refl
  find_key_again (suc tries) created b = ground (arith, find_key_again tries created b)

  pub find_key-slot :
      (partner : Bytes) (created tries : ℕ) (s : Option N.Outer)
      → find_key T B N V J (suc tries) created (put_uint64 created) (bucket_at partner s)
        ≡ put_uint64 (slot partner created s)
  unfolding find_key slot raw_at
  find_key-slot partner created tries s =
      ground (arith, find_key_again tries created (bucket_at partner s))

  pub slot-lt :
      (partner : Bytes) (created : ℕ) (s : Option N.Outer)
      → created < 2 ^ 64
      → slot partner created s < 2 ^ 64
  unfolding slot
  slot-lt partner created s h = ground arith

  pub store_message_ok :
      (random : Result AesError Bytes) (msg m : Message) (b c : B.Bucket)
      → store_message T B N V J random msg b ≡ ok (m, c)
      → let key = find_key T B N V J 1000 msg.created_at (put_uint64 msg.created_at) b in
        (sealed : Bytes) × (m ≡ record msg { database_id = uint64 key })
        × (B.put key sealed b ≡ ok c)
        × (read_message T B N V J sealed ≡ ok m)
  unfolding store_message read_message unseal
  store_message_ok random msg m b c h =
      let key = find_key T B N V J 1000 msg.created_at (put_uint64 msg.created_at) b in
      let stored : Message = record msg { database_id = uint64 key } in
      let (raw, e1, r1) = >>=-eq-ok (map_err json (J.marshal stored)) _ h in
      let (sealed, e2, r2) = >>=-eq-ok (seal V random raw) _ r1 in
      let (c', e3, r3) = >>=-eq-ok (B.put key sealed b) _ r2 in
      let written = marshal_ok (J.marshal stored) e1 in
      (
        sealed,
        ground arith,
        ground arith,
        rw (unseal-seal V random raw sealed (J.marshal_bytes stored raw written) e2)
            (rw (J.unmarshal-marshal stored raw written) (ground arith)),
      )

  pub store_in_ok :
      (random : Result AesError Bytes) (partner : Bytes) (msg : Message) (o q : N.Outer)
      (e : PersistedEvent)
      → store_in T B N V J random partner msg o ≡ ok (e, q)
      → (p : N.Outer) × (c : B.Bucket) × (N.create_bucket partner o ≡ ok p)
        × (store_message T B N V J random msg (bucket_or_empty T B N V J (N.bucket partner p))
            ≡ ok (e.message, c))
        × (e.partner ≡ partner)
        × (e.db_message_id ≡ e.message.database_id)
        × (q ≡ N.write_bucket partner c p)
  unfolding store_in
  store_in_ok random partner msg o q e h =
      let (p, e1, r1) = >>=-eq-ok (N.create_bucket partner o) _ h in
      let ((m, c), e2, r2) =
        >>=-eq-ok
          (store_message T B N V J random msg (bucket_or_empty T B N V J (N.bucket partner p))) _
          r1 in
      (p, c, e1, ground arith, ground arith, ground arith, ground arith)

  -- Making the partner's bucket changes no message.
  pub bucket_at-create :
      (partner q : Bytes) (s : Option N.Outer) (p : N.Outer)
      → N.create_bucket partner (create_chats T B N V J s) ≡ ok p
      → bucket_or_empty T B N V J (N.bucket q p) ≡ bucket_at q s
  unfolding bucket_at bucket_or_empty create_chats
  bucket_at-create partner q none p h = ground (
    arith,
    N.bucket-create partner q N.none_inside p,
    N.bucket-none_inside partner,
    N.bucket-none_inside q,
  )
  bucket_at-create partner q (some o) p h =
      ground (arith, N.bucket-create partner q o p, bytes_beq_iff partner q)

  pub bucket_at-write :
      (partner q : Bytes) (c : B.Bucket) (p : N.Outer)
      → bucket_at q (some (N.write_bucket partner c p))
        ≡ (if bytes_beq partner q then c else bucket_or_empty T B N V J (N.bucket q p))
  unfolding bucket_at bucket_or_empty
  bucket_at-write partner q c p = ground (arith, N.bucket-write partner q c p)
