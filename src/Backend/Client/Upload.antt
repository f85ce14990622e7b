-- ===== src/Backend/Client/Upload.antt =====
-- The signed pre key of an account, from its upload to the partner who fetches it.
use panthalassa.Base.{
  Option-cases, ℕ, ◌≡◌, true, Option, some, arith, Bytes, length, bytes_beq_iff, Result, ok, err,
  Result-cases, List-cases, inl, inr,
}
use panthalassa.Bolt.{Transactions, Buckets}
use panthalassa.Crypto.Aes.{AesError}
use panthalassa.KeyManager.{KeyManager, identity_sign}
use panthalassa.Db.Vault.{Vault, DbError}
use panthalassa.Db.OneTimePreKeys.{KeyPair}
use panthalassa.Db.SignedPreKeys.{SignedPreKeyJson, all, put, get}
use panthalassa.Db.SignedPreKeys.Stored.{get-put_pair}
use panthalassa.Identity.{Signing}
use panthalassa.Identity.Bundle.{ProtoPreKeyBundle}
use panthalassa.Identity.PreKey.{
  PreKey, ProtoPreKey, sign, owner_key, to_protobuf, from_protobuf, verify_signature,
}
use panthalassa.Identity.PreKey.Signed.{sign_keeps, verify_signature-published}
use panthalassa.Backend.Client.{
  Response, bundle_of, fetch_signed_pre_key, pre_key_of, signed_pre_key, prepare_upload,
  finish_upload,
}

module _ (S : Signing) where
  signed_pre_key_lem :
      (km : KeyManager) (generated : Result ℕ KeyPair) (pair : KeyPair) (q : PreKey)
      → signed_pre_key S km generated ≡ ok (pair, q)
      → (once : PreKey) × (once.public_key ≡ pair.public_key) × (sign S km once ≡ ok q)
  unfolding signed_pre_key pre_key_of
  signed_pre_key_lem km (err e) pair q h = absurd (ground arith)
  signed_pre_key_lem km (ok p) pair q h = elim (Result-cases (sign S km (pre_key_of S p))) [
    | inr (e, f) ↦ absurd (ground arith)
    | inl (once, f) ↦
        let (same, own) = sign_keeps S km (pre_key_of S p) once f in
        elim (Result-cases (sign S km once)) [
          | inr (e, g) ↦ absurd (ground arith)
          | inl (twice, g) ↦ (once, ground arith, ground arith)
        ]
  ]

  -- What `FetchSignedPreKey` returns without an error carries a signature that verifies under the
  -- user's key.
  pub fetch_signed_pre_key_sound :
      (user : Bytes) (answer : Result ℕ Response) (pk : PreKey)
      → fetch_signed_pre_key S user answer ≡ ok pk
      → verify_signature S pk user ≡ ok true
  unfolding fetch_signed_pre_key bundle_of
  fetch_signed_pre_key_sound user (err e) pk h = absurd (ground arith)
  fetch_signed_pre_key_sound user (ok r) pk h = elim (Result-cases (bundle_of r)) [
    | inr (e, f) ↦ absurd (ground arith)
    | inl (m, f) ↦ elim (Option-cases m.signed_pre_key) [
      | inl k ↦ absurd (ground arith)
      | inr (key, k) ↦ elim (Result-cases (from_protobuf key)) [
        | inr (e, g) ↦ absurd (ground arith)
        | inl (p, g) ↦ elim (Result-cases (verify_signature S p user)) [
          | inr (e, v) ↦ absurd (ground arith)
          | inl (b, v) ↦ ground arith
        ]
      ]
    ]
  ]

  from_protobuf_key : (m : ProtoPreKey) (p : PreKey) → from_protobuf m ≡ ok p → p.public_key ≡ m.key
  unfolding from_protobuf
  from_protobuf_key m p h = ground arith

  module _ (T : Transactions DbError) (B : Buckets DbError) (V : Vault) (J : SignedPreKeyJson) where
    prepare_upload_lem :
        (km : KeyManager) (generated : Result ℕ KeyPair) (pair : KeyPair) (m : ProtoPreKey)
        (s : Option B.Bucket)
        → prepare_upload S T B V J km generated s ≡ some (ok (pair, m))
        → (q : PreKey) × (signed_pre_key S km generated ≡ ok (pair, q)) × (m ≡ to_protobuf q)
    unfolding prepare_upload
    prepare_upload_lem km generated pair m s h = elim (List-cases (all T B V J s)) [
      | inr (x, xs, e) ↦ absurd (ground arith)
      | inl e ↦ elim (Result-cases (signed_pre_key S km generated)) [
        | inr (x, f) ↦ absurd (ground arith)
        | inl ((p, q), f) ↦ (q, ground arith, ground arith)
      ]
    ]

    finish_upload_lem :
        (random : Result AesError Bytes) (valid_till : ℕ) (pair : KeyPair) (answered : Response)
        (s t : Option B.Bucket)
        → finish_upload S T B V J random valid_till pair (ok answered) s ≡ (ok tt, t)
        → put T B V J random valid_till pair s ≡ (ok tt, t)
    unfolding finish_upload
    finish_upload_lem random valid_till pair answered s t h =
        elim (Result-cases (put T B V J random valid_till pair s).0) [
          | inr (e, f) ↦ absurd (ground arith)
          | inl (u, f) ↦ ground arith
        ]

    -- Where the upload of the signed pre key prepared a request, the backend answered it and
    -- the key pair was stored, `FetchSignedPreKey` of a response whose bundle has the uploaded
    -- key returns a pre key with the public key of the pair, and the storage has its private
    -- key; the public key has 32 bytes, and the account's signatures verify under the user's
    -- key, which is that of the account.
    pub fetch_signed_pre_key-upload :
        (km : KeyManager) (generated : Result ℕ KeyPair) (pair : KeyPair) (m : ProtoPreKey)
        (random : Result AesError Bytes) (valid_till : ℕ) (answered fetched : Response)
        (bundle : ProtoPreKeyBundle) (user : Bytes) (s later t : Option B.Bucket)
        → length pair.public_key ≡ 32
        → ((text signature : Bytes)
            → identity_sign S.sign km text ≡ ok signature
            → S.verify user text signature ≡ true)
        → owner_key km ≡ ok user
        → prepare_upload S T B V J km generated s ≡ some (ok (pair, m))
        → finish_upload S T B V J random valid_till pair (ok answered) later ≡ (ok tt, t)
        → fetched.pre_key_bundle ≡ some bundle
        → bundle.signed_pre_key ≡ some m
        → ((pk : PreKey) × (fetch_signed_pre_key S user (ok fetched) ≡ ok pk)
            × (pk.public_key ≡ pair.public_key))
          × (get T B V J pair.public_key t ≡ ok pair.private_key)
    unfolding finish_upload fetch_signed_pre_key bundle_of to_protobuf
    fetch_signed_pre_key-upload km generated pair m random valid_till answered fetched bundle user s
          later t long law own sent done has is_m =
        let (q, signed, published) = prepare_upload_lem km generated pair m s sent in
        let (once, same, twice) = signed_pre_key_lem km generated pair q signed in
        let (kept, owner) = sign_keeps S km once q twice in
        let is_user : q.identity_public_key ≡ user = ground arith in
        let (p, back, valid) =
          verify_signature-published S km once q (ground arith) twice
            (λ text signature e. rw is_user (law text signature e)) in
        let key = from_protobuf_key (to_protobuf q) p back in
        let stored : put T B V J random valid_till pair later ≡ (ok tt, t) =
          finish_upload_lem random valid_till pair answered later t done in
        (
          (p, ground arith, ground arith),
          ground (
            arith,
            get-put_pair T B V J random valid_till pair later t stored pair.public_key,
            bytes_beq_iff pair.public_key pair.public_key,
          ),
        )
