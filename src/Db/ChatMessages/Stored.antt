-- ===== src/Db/ChatMessages/Stored.antt =====
-- A persisted message can be fetched, and persisting it touches no other.
use panthalassa.Base.{
  ℕ, ◌^◌, ◌<◌, ◌≡◌, ◌≢◌, ◌⊎◌, refl, Option, some, Bytes, arith, put_uint64, uint64-put_uint64,
  put_uint64_injective, bytes_beq_iff, Result, ok, err, Result-cases, inl, inr, ap, ◌∙◌,
}
use panthalassa.Crypto.Aes.{AesError}
use panthalassa.Bolt.{Transactions, Buckets, Nested}
use panthalassa.Db.Vault.{Vault, DbError}
use panthalassa.Db.Message.{Message, valid_message}
use panthalassa.Db.ChatMessages.{
  MessageJson, PersistedEvent, create_chats, store_in, persist_update, persist_message,
  read_message, get_message,
}
use panthalassa.Db.ChatMessages.Valid.{IsValid, valid_message_iff}
use panthalassa.Db.ChatMessages.Persist.{
  bucket_at, raw_at, slot, slot-lt, find_key-slot, store_message_ok, store_in_ok, bucket_at-create,
  bucket_at-write,
}

module _ (T : Transactions DbError) (B : Buckets DbError) (N : Nested DbError B.Bucket B.empty)
    (V : Vault) (J : MessageJson) (random : Result AesError Bytes) (partner : Bytes) (msg : Message)
    (s : Option N.Outer) where
  persist_update_cases :
      ((e : PersistedEvent) × (q : N.Outer) × (store_in T B N V J random partner
            (record msg { version = 1 })
            (create_chats T B N V J s)
          ≡ ok (e, q))
        × (T.update
              (Option N.Outer)
              PersistedEvent
              (persist_update T B N V J random partner (record msg { version = 1 }))
              s
            ≡ (ok e, some q)))
      ⊎ ((e : DbError) × (T.update
              (Option N.Outer)
              PersistedEvent
              (persist_update T B N V J random partner (record msg { version = 1 }))
              s
            ≡ (err e, s)))
  persist_update_cases =
      let m = record msg { version = 1 } in
      elim (Result-cases (store_in T B N V J random partner m (create_chats T B N V J s))) [
        | inl ((e, q), h) ↦ inl (
          e,
          q,
          h,
          T.update_commit _ _ (persist_update T B N V J random partner m) s (some q) e
              (unfold persist_update in ground arith),
        )
        | inr (e, h) ↦ inr (
          e,
          T.update_rollback _ _ (persist_update T B N V J random partner m) s s e
              (unfold persist_update in ground arith),
        )
      ]

  -- `persistMessage` either stores a message that is valid in version 1, or returns an error and
  -- leaves the storage as it was.
  pub persist_message_safe :
      ((e : PersistedEvent) × (t : Option N.Outer) × (persist_message T B N V J random partner msg s
          ≡ (ok e, t))
        × IsValid (record msg { version = 1 }))
      ⊎ ((e : DbError) × (persist_message T B N V J random partner msg s ≡ (err e, s)))
  unfolding persist_message
  persist_message_safe = elim (Result-cases (valid_message (record msg { version = 1 }))) [
    | inr (e, bad) ↦ inr (e, ground arith)
    | inl (u, good) ↦ elim persist_update_cases [
      | inl (e, q, h, done) ↦ inl (
        e,
        some q,
        ground arith,
        (valid_message_iff (record msg { version = 1 })).0 (ground arith),
      )
      | inr (e, undone) ↦ inr (e, ground arith)
    ]
  ]

  persist_message_ok :
      (e : PersistedEvent) (t : Option N.Outer)
      → persist_message T B N V J random partner msg s ≡ (ok e, t)
      → (q : N.Outer) × (store_in T B N V J random partner
            (record msg { version = 1 })
            (create_chats T B N V J s)
          ≡ ok (e, q))
        × (t ≡ some q)
  unfolding persist_message
  persist_message_ok e t h = elim (Result-cases (valid_message (record msg { version = 1 }))) [
    | inr (x, bad) ↦ ground arith
    | inl (u, good) ↦ elim persist_update_cases [
      | inl (x, q, stored, done) ↦ (q, ground arith, ground arith)
      | inr (x, undone) ↦ ground arith
    ]
  ]

  module _ (in_range : msg.created_at < 2 ^ 64) (e : PersistedEvent) (t : Option N.Outer)
      (done : persist_message T B N V J random partner msg s ≡ (ok e, t)) where
    placed :
        (p : N.Outer) × (c : B.Bucket) × (sealed : Bytes) × (N.create_bucket partner
            (create_chats T B N V J s)
          ≡ ok p)
        × (t ≡ some (N.write_bucket partner c p))
        × (e.db_message_id ≡ slot T B N V J partner msg.created_at s)
        × (e.message
            ≡ record msg { version = 1; database_id = slot T B N V J partner msg.created_at s })
        × (B.put
              (put_uint64 (slot T B N V J partner msg.created_at s))
              sealed
              (bucket_at T B N V J partner s)
            ≡ ok c)
        × (read_message T B N V J sealed ≡ ok e.message)
    placed =
        let m = record msg { version = 1 } in
        let (q, stored, tq) = persist_message_ok e t done in
        let (p, c, made, put, here, id, qe) =
          store_in_ok T B N V J random partner m (create_chats T B N V J s) q e stored in
        let same = bucket_at-create T B N V J partner partner s p made in
        let (sealed, me, pe, re) =
          store_message_ok T B N V J random m e.message (bucket_at T B N V J partner s) c
            (rw same at put) in
        let k = slot T B N V J partner msg.created_at s in
        let key = find_key-slot T B N V J partner msg.created_at 999 s in
        let back = uint64-put_uint64 k (slot-lt T B N V J partner msg.created_at s in_range) in
        let em : e.message ≡ record msg { version = 1; database_id = k } = me ∙ rw key (rw back) in
        (
          p,
          c,
          sealed,
          made,
          tq ∙ ap some qe,
          id ∙ ap (λ (x : Message). x.database_id) em,
          em,
          rw key at pe,
          re,
        )

    -- A message whose time is a pattern of 64 bits and that was persisted without an error lies
    -- under its time or, where that is taken, under the next one, whether or not a message is
    -- there already: no third key is tried. It is stored in version 1 with that key as its id,
    -- and `GetMessage` returns it.
    pub get-persist_message :
        (e.db_message_id ≡ slot T B N V J partner msg.created_at s)
        × (e.message
            ≡ record msg { version = 1; database_id = slot T B N V J partner msg.created_at s })
        × (get_message T B N V J partner e.db_message_id t ≡ ok (some e.message))
    unfolding get_message
    get-persist_message =
        let (p, c, sealed, made, te, ie, em, pe, re) = placed in
        let k = put_uint64 (slot T B N V J partner msg.created_at s) in
        (
          ie,
          em,
          ground (
            arith,
            N.bucket-write partner partner c p,
            (bytes_beq_iff partner partner).1 refl,
            B.get-put k k sealed (bucket_at T B N V J partner s) c,
            (bytes_beq_iff k k).1 refl,
          ),
        )

    -- Every other message keeps its bytes when such a message was persisted without an error:
    -- those of other partners, and those of this partner under any other key of 64 bits.
    pub raw_at-persist_message :
        (q : Bytes) (j : ℕ)
        → j < 2 ^ 64
        → (q ≢ partner) ⊎ (j ≢ e.db_message_id)
        → raw_at T B N V J q j t ≡ raw_at T B N V J q j s
    unfolding raw_at
    raw_at-persist_message q j small other =
        let (p, c, sealed, made, te, ie, em, pe, re) = placed in
        let k = slot T B N V J partner msg.created_at s in
        let fits = slot-lt T B N V J partner msg.created_at s in_range in
        ground (
          arith,
          bucket_at-write T B N V J partner q c p,
          bucket_at-create T B N V J partner q s p,
          bytes_beq_iff partner q,
          B.get-put (put_uint64 k) (put_uint64 j) sealed (bucket_at T B N V J partner s) c,
          bytes_beq_iff (put_uint64 k) (put_uint64 j),
          put_uint64_injective k j fits small,
        )
