-- ===== src/Db/RatchetKeys/Stored.antt =====
-- Which message keys are found after `Put`, `DeleteMk` and `DeletePk`.
use panthalassa.Base.{
  ℕ, ◌^◌, ◌<◌, ◌≡◌, ◌≢◌, ◌⊎◌, Bool, true, false, Option, none, some, arith, Bytes, IsBytes, length,
  little_endian_injective, bytes_beq, bytes_beq_iff, if◌then◌else◌, Result, ok, err, >>=-eq-ok, inl,
  inr, ◌∙◌, sym, refl, ap, Result-cases, Option-cases,
}
use panthalassa.Crypto.Aes.{AesError}
use panthalassa.Bolt.{Transactions, Buckets, Nested, change, update-change}
use panthalassa.Db.Vault.{Vault, DbError, seal, unseal-seal}
use panthalassa.Db.PreKeys.{no_key}
use panthalassa.Db.RatchetKeys.{
  uint_to_bytes, read_message_key, get_view, get, created, bucket_or_empty, put_body, put,
  delete_mk_body, delete_mk, delete_pk_body, delete_pk,
}

module _ (T : Transactions DbError) (B : Buckets DbError) (N : Nested DbError B.Bucket B.empty)
    (V : Vault) where
  -- The stored bytes of a message key.
  unfoldable raw_key : Bytes → ℕ → Option N.Outer → Option Bytes
  unfolding bucket_or_empty
  raw_key k n none = none
  raw_key k n (some o) = B.get (uint_to_bytes n) (bucket_or_empty T B N V (N.bucket k o))

  unfoldable read_raw : Option Bytes → Bytes × Bool
  read_raw none = (no_key, false)
  read_raw (some raw) = elim (read_message_key T B N V raw) [
    | ok key ↦ (key, true)
    | err e ↦ (no_key, false)
  ]

  get-read_raw :
      (k : Bytes) (n : ℕ) (s : Option N.Outer) → get T B N V k n s ≡ read_raw (raw_key k n s)
  unfolding get get_view raw_key read_raw
  get-read_raw k n none = refl
  get-read_raw k n (some o) = ground (arith, B.get-empty (uint_to_bytes n))

  -- The state of a successful change, or the state before.
  changed-cases :
      (f : Option N.Outer → Result DbError (Option N.Outer)) (s : Option N.Outer)
      → ((t : Option N.Outer) × (f s ≡ ok t)
          × ((T.update (Option N.Outer) (Unit {0}) (change f) s).1 ≡ t))
        ⊎ ((T.update (Option N.Outer) (Unit {0}) (change f) s).1 ≡ s)
  unfolding change
  changed-cases f s = elim (Result-cases (f s)) [
    | inl (t, e) ↦ inl (t, e, ground (arith, update-change T f s))
    | inr (x, e) ↦ inr (ground (arith, update-change T f s))
  ]

  raw_key-created :
      (k : Bytes) (n : ℕ) (s : Option N.Outer)
      → raw_key k n (some (created T B N V s)) ≡ raw_key k n s
  unfolding raw_key created
  raw_key-created k n none = ground (arith, N.bucket-none_inside k, B.get-empty (uint_to_bytes n))
  raw_key-created k n (some o) = refl

  -- What a written bucket holds.
  raw_key-write :
      (k j : Bytes) (n : ℕ) (b : B.Bucket) (o : N.Outer)
      → raw_key j n (some (N.write_bucket k b o))
        ≡ (if bytes_beq k j then B.get (uint_to_bytes n) b else raw_key j n (some o))
  unfolding raw_key
  raw_key-write k j n b o = ground (arith, N.bucket-write k j b o)

  raw_key-create :
      (k j : Bytes) (n : ℕ) (o p : N.Outer)
      → N.create_bucket k o ≡ ok p
      → raw_key j n (some p) ≡ raw_key j n (some o)
  unfolding raw_key bucket_or_empty
  raw_key-create k j n o p h =
      ground (arith, N.bucket-create k j o p, bytes_beq_iff k j, B.get-empty (uint_to_bytes n))

  module _ (random : Result AesError Bytes) (k : Bytes) (n : ℕ) (message_key : Bytes)
      (s t : Option N.Outer) (body : put_body T B N V random k n message_key s ≡ ok t) where
    put_body_ok :
        (raw : Bytes) × (seal V random message_key ≡ ok raw)
        × ((j : Bytes) (m : ℕ)
            → raw_key j m t ≡ (
                if bytes_beq k j
                then (if bytes_beq (uint_to_bytes n) (uint_to_bytes m)
                    then some raw
                    else raw_key j m s)
                else raw_key j m s))
    unfolding put_body
    put_body_ok =
        let (o, e1, r1) = >>=-eq-ok (N.create_bucket k (created T B N V s)) _ body in
        let (raw, e2, r2) = >>=-eq-ok (seal V random message_key) _ r1 in
        let (b, e3, r3) =
          >>=-eq-ok (B.put (uint_to_bytes n) raw (bucket_or_empty T B N V (N.bucket k o))) _ r2 in
        (
          raw,
          e2,
          λ j m.
              unfold raw_key in
              ground (
                arith,
                raw_key-write k j m b o,
                bytes_beq_iff k j,
                B.get-put (uint_to_bytes n) (uint_to_bytes m) raw
                    (bucket_or_empty T B N V (N.bucket k o)) b,
                raw_key-create k j m (created T B N V s) o e1,
                raw_key-created j m s,
              ),
        )

  module _ (random : Result AesError Bytes) (k : Bytes) (n : ℕ) (message_key : Bytes)
      (s : Option N.Outer) where
    -- `Put` of a message key of 32 bytes leaves the storage as it was, where one of its steps
    -- fails, or `Get` then gives that key.
    pub get-put_key :
        IsBytes message_key
        → length message_key ≡ 32
        → (put T B N V random k n message_key s ≡ s)
          ⊎ (get T B N V k n (put T B N V random k n message_key s) ≡ (message_key, true))
    unfolding put
    get-put_key bytes fits = elim (changed-cases (put_body T B N V random k n message_key) s) [
      | inr same ↦ inl same
      | inl (t, e, done) ↦
          let (raw, sealed, at) = put_body_ok random k n message_key s t e in
          inr (
            rw done (
              get-read_raw k n t
              ∙ unfold read_raw read_message_key in
                ground (
                  arith,
                  at k n,
                  (bytes_beq_iff k k).1 refl,
                  (bytes_beq_iff (uint_to_bytes n) (uint_to_bytes n)).1 refl,
                  unseal-seal V random message_key raw bytes sealed,
                )))
    ]

    -- `Put` keeps every other message key: those of other ratchet keys, and those of this one
    -- with other numbers, where both numbers fit a `uint`.
    pub get-put_key_other :
        (j : Bytes) (m : ℕ)
        → n < 2 ^ 64
        → m < 2 ^ 64
        → (j ≢ k) ⊎ (m ≢ n)
        → get T B N V j m (put T B N V random k n message_key s) ≡ get T B N V j m s
    unfolding put
    get-put_key_other j m small small_m other =
        elim (changed-cases (put_body T B N V random k n message_key) s) [
          | inr same ↦ rw same refl
          | inl (t, e, done) ↦
              let (raw, sealed, at) = put_body_ok random k n message_key s t e in
              let kept : raw_key j m t ≡ raw_key j m s =
                unfold uint_to_bytes in
                ground (
                  arith,
                  at j m,
                  bytes_beq_iff k j,
                  bytes_beq_iff (uint_to_bytes n) (uint_to_bytes m),
                  little_endian_injective n m small small_m,
                ) in
              rw done (get-read_raw j m t ∙ ap read_raw kept ∙ sym (get-read_raw j m s))
        ]

  -- What `DeleteMk` leaves.
  raw_key-delete_mk :
      (k j : Bytes) (n m : ℕ) (s : Option N.Outer)
      → raw_key j m (delete_mk T B N V k n s) ≡ (
          if bytes_beq k j
          then (if bytes_beq (uint_to_bytes n) (uint_to_bytes m) then none else raw_key j m s)
          else raw_key j m s)
  unfolding delete_mk delete_mk_body raw_key change
  raw_key-delete_mk k j n m none = ground (arith, changed-cases (delete_mk_body T B N V k n) none)
  raw_key-delete_mk k j n m (some o) = elim (Option-cases (N.bucket k o)) [
    | inl missing ↦ ground (
      arith,
      changed-cases (delete_mk_body T B N V k n) (some o),
      bytes_beq_iff k j,
      B.get-empty (uint_to_bytes m),
    )
    | inr (b, found) ↦
        let (c, e) = B.delete_ok (uint_to_bytes n) b in
        ground (
          arith,
          update-change T (delete_mk_body T B N V k n) (some o),
          raw_key-write k j m c o,
          bytes_beq_iff k j,
          B.get-delete (uint_to_bytes n) (uint_to_bytes m) b c,
        )
  ]

  -- After `DeleteMk`, `Get` does not find the message key.
  pub get-delete_mk :
      (k : Bytes) (n : ℕ) (s : Option N.Outer)
      → get T B N V k n (delete_mk T B N V k n s) ≡ (no_key, false)
  get-delete_mk k n s =
      get-read_raw k n (delete_mk T B N V k n s)
      ∙ unfold read_raw in
        ground (
          arith,
          raw_key-delete_mk k k n n s,
          (bytes_beq_iff k k).1 refl,
          (bytes_beq_iff (uint_to_bytes n) (uint_to_bytes n)).1 refl,
        )

  delete_pk_body_ok :
      (k : Bytes) (s t : Option N.Outer)
      → delete_pk_body T B N V k s ≡ ok t
      → (j : Bytes) (n : ℕ)
      → get T B N V j n t ≡ (if bytes_beq k j then (no_key, false) else get T B N V j n s)
  unfolding delete_pk_body get get_view
  delete_pk_body_ok k none t e j n = ground arith
  delete_pk_body_ok k (some o) t e j n =
      let (p, d, r) = >>=-eq-ok (N.delete_bucket k o) _ e in
      ground (arith, N.bucket-delete k j o p d)

  -- `DeletePk` leaves the storage as it was, where the bucket cannot be deleted, or drops every
  -- message key of the ratchet key and no other.
  pub get-delete_pk :
      (k : Bytes) (s : Option N.Outer)
      → (delete_pk T B N V k s ≡ s)
        ⊎ ((j : Bytes) (n : ℕ)
            → get T B N V j n (delete_pk T B N V k s)
              ≡ (if bytes_beq k j then (no_key, false) else get T B N V j n s))
  unfolding delete_pk
  get-delete_pk k s = elim (changed-cases (delete_pk_body T B N V k) s) [
    | inr same ↦ inl same
    | inl (t, e, done) ↦ inr (λ j n. rw done (delete_pk_body_ok k s t e j n))
  ]
