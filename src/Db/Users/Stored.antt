-- ===== src/Db/Users/Stored.antt =====
-- Every signed pre key that the storage gives has a valid signature of its user.
use panthalassa.Base.{
  ◌≡◌, refl, true, false, Option, none, some, List, [], ◌∷◌, arith, Bytes, bytes_beq, bytes_beq_iff,
  ok, map_err, Result-cases, Option-cases, Bool-cases, inl, inr, ◌⊎◌,
}
use panthalassa.Bolt.{Transactions, Buckets, Nested, change, update-change}
use panthalassa.Bolt.Within.{created, raw_at, put_at, raw_at-put_at, raw_at-created}
use panthalassa.Identity.{Signing}
use panthalassa.Identity.PreKey.{
  PreKey, ProtoPreKey, hash, hash_input, verify_signature, to_protobuf, from_protobuf,
}
use panthalassa.Db.Vault.{DbError, json}
use panthalassa.Db.Users.{
  PreKeyProto, signed_pre_key_name, read_pre_key, get_signed_pre_key, write_pre_key, put_body,
  put_signed_pre_key,
}

-- Reading back what was written keeps the signature as valid as it was.
verify_signature-read :
    (S : Signing) (p q : PreKey) (k : Bytes)
    → from_protobuf (to_protobuf p) ≡ ok q
    → verify_signature S q k ≡ verify_signature S p k
unfolding from_protobuf to_protobuf verify_signature hash hash_input
verify_signature-read S p q k h = ground arith

module _ (T : Transactions DbError) (B : Buckets DbError) (N : Nested DbError B.Bucket B.empty)
    (S : Signing) (J : PreKeyProto) where
  -- What is stored for each user verifies under the user's key.
  abbrev IsVerified : Option N.Outer → Type 0
  IsVerified s =
      (user raw : Bytes) (key : PreKey)
      → raw_at B N user signed_pre_key_name s ≡ some raw
      → read_pre_key T B N S J raw ≡ ok key
      → verify_signature S key user ≡ ok true

  read_parts :
      (raw : Bytes) (key : PreKey)
      → read_pre_key T B N S J raw ≡ ok key
      → (m : ProtoPreKey) × (J.unmarshal raw ≡ ok m) × (from_protobuf m ≡ ok key)
  unfolding read_pre_key
  read_parts raw key h = elim (Result-cases (J.unmarshal raw)) [
    | inr (e, u) ↦ absurd (ground arith)
    | inl (m, u) ↦ elim (Result-cases (from_protobuf m)) [
      | inr (e, f) ↦ absurd (ground arith)
      | inl (p, f) ↦ (m, u, ground arith)
    ]
  ]

  IsVerified-put_body :
      (user : Bytes) (key : PreKey) (s t : Option N.Outer)
      → verify_signature S key user ≡ ok true
      → IsVerified s
      → put_body T B N S J user key s ≡ ok t
      → IsVerified t
  unfolding put_body
  IsVerified-put_body user key s t v h e =
      elim (Result-cases (N.create_bucket user (created B N s))) [
        | inr (x, c) ↦
            let same : t ≡ some (created B N s) = ground arith in
            λ i raw k at read.
              h i raw k (ground (arith, raw_at-created B N i signed_pre_key_name s)) read
        | inl (o, c) ↦
            let value = map_err json (J.marshal (to_protobuf key)) in
            let put : put_at B N user signed_pre_key_name value s ≡ ok t =
              unfold put_at write_pre_key in ground arith in
            let (raw, m, at) = raw_at-put_at B N user signed_pre_key_name value s t put in
            λ i found k stored read. elim (Bool-cases (bytes_beq user i)) [
              | inl same ↦
                  let (p, u, f) = read_parts found k read in
                  ground (
                    arith,
                    at i signed_pre_key_name,
                    (bytes_beq_iff signed_pre_key_name signed_pre_key_name).1 refl,
                    bytes_beq_iff user i,
                    J.unmarshal-marshal (to_protobuf key) raw,
                    verify_signature-read S key k user,
                  )
              | inr other ↦ h i found k (ground (arith, at i signed_pre_key_name)) read
            ]
      ]

  put_cases :
      (user : Bytes) (key : PreKey) (s : Option N.Outer)
      → ((put_signed_pre_key T B N S J user key s).1 ≡ s)
        ⊎ ((t : Option N.Outer) × (verify_signature S key user ≡ ok true)
            × (put_body T B N S J user key s ≡ ok t)
            × ((put_signed_pre_key T B N S J user key s).1 ≡ t))
  unfolding put_signed_pre_key change
  put_cases user key s = elim (Result-cases (verify_signature S key user)) [
    | inr (e, v) ↦ inl (ground arith)
    | inl (false, v) ↦ inl (ground arith)
    | inl (true, v) ↦
        let same = update-change T (put_body T B N S J user key) s in
        elim (Result-cases (put_body T B N S J user key s)) [
          | inr (e, p) ↦ inl (ground arith)
          | inl (t, p) ↦ inr (t, v, p, ground arith)
        ]
  ]

  IsVerified-put_signed_pre_key :
      (user : Bytes) (key : PreKey) (s : Option N.Outer)
      → IsVerified s
      → IsVerified (put_signed_pre_key T B N S J user key s).1
  IsVerified-put_signed_pre_key user key s h = elim (put_cases user key s) [
    | inl same ↦ rw same h
    | inr (t, v, p, same) ↦ rw same (IsVerified-put_body user key s t v h p)
  ]

  -- The storage after some calls of `PutSignedPreKey`.
  unfoldable pub run : List (Bytes × PreKey) → Option N.Outer → Option N.Outer
  run [] s = s
  run ((user, key) ∷ calls) s = run calls (put_signed_pre_key T B N S J user key s).1

  IsVerified-run :
      (calls : List (Bytes × PreKey)) (s : Option N.Outer) → IsVerified s → IsVerified (run calls s)
  unfolding run
  IsVerified-run [] s h = h
  IsVerified-run ((user, key) ∷ calls) s h =
      IsVerified-run calls _ (IsVerified-put_signed_pre_key user key s h)

  nothing : IsVerified none
  unfolding raw_at
  nothing user raw key missing read = absurd (ground arith)

  -- After any calls of `PutSignedPreKey` on a new storage, whatever keys they were given, a
  -- signed pre key that `GetSignedPreKey` returns for a user verifies under that user's key.
  pub verify_signature-get :
      (calls : List (Bytes × PreKey)) (user : Bytes) (key : PreKey)
      → get_signed_pre_key T B N S J user (run calls none) ≡ ok (some key)
      → verify_signature S key user ≡ ok true
  unfolding get_signed_pre_key
  verify_signature-get calls user key h =
      elim (Option-cases (raw_at B N user signed_pre_key_name (run calls none))) [
        | inl e ↦ absurd (ground arith)
        | inr (raw, e) ↦ elim (Result-cases (read_pre_key T B N S J raw)) [
          | inr (x, r) ↦ absurd (ground arith)
          | inl (found, r) ↦
              let same : found ≡ key = ground arith in
              rw same at (IsVerified-run calls none nothing user raw found e r)
        ]
      ]
