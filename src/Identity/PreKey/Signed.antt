-- ===== src/Identity/PreKey/Signed.antt =====
-- What a signature of a pre key covers, and that it verifies.
use panthalassa.Base.{
  ◌^◌, ◌<◌, ◌≡◌, refl, true, Bytes, [], ◌∷◌, ◌++◌, arith, length, put_varint_injective,
  put_varint_total, ok, >>=-eq-ok, length-append, Result-cases, inl, inr, hex_decode,
}
use panthalassa.KeyManager.{KeyManager, identity_public_key, identity_sign}
use panthalassa.Identity.{Time, Signing, zero_key, ed25519_verify, time_stamp}
use panthalassa.Identity.PreKey.{
  PreKey, hash_input, hash, owner_key, sign, verify_signature, to_protobuf, from_protobuf,
}

-- Texts that begin with parts of the same length are equal part by part.
pub ++_split : (a b c d : Bytes) → length a ≡ length b → a ++ c ≡ b ++ d → (a ≡ b) × (c ≡ d)
++_split [] [] c d l e = (refl, e)
++_split [] (y ∷ b) c d l e = absurd (omega arith)
++_split (x ∷ a) [] c d l e = absurd (omega arith)
++_split (x ∷ a) (y ∷ b) c d l e =
    let (h, t) = ++_split a b c d (omega arith) (ground arith) in (ground arith, t)

time_stamp_injective :
    (s t : Time) (bs : Bytes)
    → s.unix < 2 ^ 64
    → t.unix < 2 ^ 64
    → time_stamp s ≡ ok bs
    → time_stamp t ≡ ok bs
    → s.unix ≡ t.unix
unfolding time_stamp
time_stamp_injective s t bs hs ht es et =
    put_varint_injective s.unix t.unix bs hs ht (ground arith) (ground arith)

-- Two pre keys with keys of the same lengths and one hashed text have the same key, owner and time:
-- a signature of one can be taken for no other.
pub hash_input_injective :
    (p q : PreKey) (text : Bytes)
    → length p.public_key ≡ length q.public_key
    → length p.identity_public_key ≡ length q.identity_public_key
    → p.time.unix < 2 ^ 64
    → q.time.unix < 2 ^ 64
    → hash_input p ≡ ok text
    → hash_input q ≡ ok text
    → (p.public_key ≡ q.public_key)
      × (p.identity_public_key ≡ q.identity_public_key)
      × (p.time.unix ≡ q.time.unix)
unfolding hash_input
hash_input_injective p q text lk li hp hq ep eq =
    let (s, es, rs) = >>=-eq-ok (time_stamp p.time) _ ep in
    let (t, et, rt) = >>=-eq-ok (time_stamp q.time) _ eq in
    let joined : (p.public_key ++ p.identity_public_key) ++ s
        ≡ (q.public_key ++ q.identity_public_key) ++ t =
      ground arith in
    let (keys, stamps) =
      ++_split (p.public_key ++ p.identity_public_key) (q.public_key ++ q.identity_public_key) s t
        (ground (
          arith,
          length-append p.public_key p.identity_public_key,
          length-append q.public_key q.identity_public_key,
        ))
        joined in
    let (k, i) =
      ++_split p.public_key q.public_key p.identity_public_key q.identity_public_key lk keys in
    (k, i, time_stamp_injective p.time q.time s hp hq es (rw (← stamps) at et))

module _ (S : Signing) (km : KeyManager) where
  length-owner_key : (raw : Bytes) → owner_key km ≡ ok raw → length raw ≡ 32
  unfolding owner_key
  length-owner_key raw h = elim (Result-cases (identity_public_key km)) [
    | inr (e, ee) ↦ absurd (ground arith)
    | inl (text, et) ↦ elim (Result-cases (hex_decode text)) [
      | inr (e, ee) ↦ absurd (ground arith)
      | inl (bs, eb) ↦ ground arith
    ]
  ]

  -- What a signed pre key is: the pre key with the owner's key and a signature of its hash.
  sign_parts :
      (p q : PreKey)
      → sign S km p ≡ ok q
      → (raw digest signature : Bytes) × (length raw ≡ 32)
        × (hash S (record p { identity_public_key = raw }) ≡ ok digest)
        × (identity_sign S.sign km digest ≡ ok signature)
        × (q ≡ record p { identity_public_key = raw; signature = signature })
  unfolding sign
  sign_parts p q h = elim (Result-cases (owner_key km)) [
    | inr (e, ee) ↦ absurd (ground arith)
    | inl (raw, er) ↦ elim (Result-cases (hash S (record p { identity_public_key = raw }))) [
      | inr (e, ee) ↦ absurd (ground arith)
      | inl (digest, ed) ↦ elim (Result-cases (identity_sign S.sign km digest)) [
        | inr (e, ee) ↦ absurd (ground arith)
        | inl (signature, es) ↦
            (raw, digest, signature, length-owner_key raw er, ed, es, ground arith)
      ]
    ]
  ]

  -- A signed pre key keeps its public key, and has the owner's.
  pub sign_keeps :
      (p q : PreKey)
      → sign S km p ≡ ok q
      → (q.public_key ≡ p.public_key) × (owner_key km ≡ ok q.identity_public_key)
  unfolding sign
  sign_keeps p q h = elim (Result-cases (owner_key km)) [
    | inr (e, ee) ↦ absurd (ground arith)
    | inl (raw, er) ↦ elim (Result-cases (hash S (record p { identity_public_key = raw }))) [
      | inr (e, ee) ↦ absurd (ground arith)
      | inl (digest', ed') ↦ elim (Result-cases (identity_sign S.sign km digest')) [
        | inr (e, ee) ↦ absurd (ground arith)
        | inl (signature', es') ↦ (ground arith, ground arith)
      ]
    ]
  ]

  received :
      (q : PreKey) (digest : Bytes)
      → length q.public_key ≡ 32
      → length q.identity_public_key ≡ 32
      → hash S q ≡ ok digest
      → S.verify q.identity_public_key digest q.signature ≡ true
      → (m : PreKey) × (from_protobuf (to_protobuf q) ≡ ok m)
        × (verify_signature S m q.identity_public_key ≡ ok true)
  unfolding from_protobuf to_protobuf verify_signature ed25519_verify hash hash_input
  received q digest l li eh ev = (
    record q { private_key = zero_key; time = record { unix = q.time.unix; nanos = 0 } },
    ground arith,
    ground arith,
  )

  -- A pre key with a public key of 32 bytes that was signed without an error and written as
  -- protobuf is read back, and the signature of what is read verifies under the owner's key,
  -- where the account's signatures do.
  pub verify_signature-published :
      (p q : PreKey)
      → length p.public_key ≡ 32
      → sign S km p ≡ ok q
      → ((text signature : Bytes)
          → identity_sign S.sign km text ≡ ok signature
          → S.verify q.identity_public_key text signature ≡ true)
      → (m : PreKey) × (from_protobuf (to_protobuf q) ≡ ok m)
        × (verify_signature S m q.identity_public_key ≡ ok true)
  unfolding hash hash_input
  verify_signature-published p q l h law =
      let (raw, digest, signature, lr, ed, es, eq) = sign_parts p q h in
      received q digest (ground arith) (ground arith) (ground arith)
        (ground (arith, law digest signature es))

-- The text that is hashed for a pre key is always found where its time is a pattern of 64 bits: the
-- loop of `PutVarint` ends within its ten bytes and does not panic.
pub hash_input_total :
    (p : PreKey) → p.time.unix < 2 ^ 64 → (text : Bytes) × (hash_input p ≡ ok text)
unfolding hash_input time_stamp
hash_input_total p small =
    let (stamp, e) = put_varint_total p.time.unix small in
    ((p.public_key ++ p.identity_public_key) ++ stamp, ground arith)
