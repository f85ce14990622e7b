-- ===== src/Identity/Profile/Signed.antt =====
-- What the signatures of a profile cover, and that a published profile keeps them valid.
use panthalassa.Base.{
  ℕ, zero, suc, ◌≡◌, ◌<◌, refl, true, Bytes, [], ◌∷◌, ◌++◌, arith, length, Result, ok, err,
  Result-cases, inl, inr, take, ap,
}
use panthalassa.KeyManager.{KeyManager, KeyManagerError, identity_sign}
use panthalassa.KeyManager.Ethereum.{Ecdsa, ethereum_sign}
use panthalassa.Identity.{Signing, IdentityError, Time, ed25519_verify, time_stamp, slice_panic}
use panthalassa.Identity.Profile.{
  Information, Profile, ProtoProfile, protobuf_to_profile, to_protobuf, hash_input, hash,
  valid_identity_signature, valid_ethereum_signature, identity_public_key_of,
  ethereum_public_key_of, signature_65, signatures_valid, sign_information, ethereum_signature,
}

append_assoc : (a b c : Bytes) → (a ++ b) ++ c ≡ a ++ (b ++ c)
append_assoc [] b c = refl
append_assoc (x ∷ a) b c = ap (λ t. x ∷ t) (append_assoc a b c)

input-moved :
    (i : Information) (front back : Bytes)
    → i.name ≡ front ++ back
    → hash_input (record i { name = front; location = back ++ i.location }) ≡ hash_input i
unfolding hash_input
input-moved i front back h = elim (Result-cases (time_stamp i.timestamp)) [
  | inr (e, ee) ↦ rw (ee) refl
  | inl (stamp, es) ↦ rw (es, h) (simp append_assoc)
]

-- The guards that `ToProtobuf` has passed.
guards_passed :
    (p : Profile) (m : ProtoProfile)
    → to_protobuf p ≡ ok m
    → (length p.information.identity_pub_key ≡ 32)
      × (length p.information.ethereum_pub_key ≡ 33)
      × (length p.information.chat_id_key ≡ 32)
unfolding to_protobuf
guards_passed p m h = ground arith

-- `copy` into the array of 65 bytes, of which 64 are read.
take-take : (n : ℕ) (bs : Bytes) → take n (take (suc n) bs) ≡ take n bs
take-take zero bs = refl
take-take (suc n) [] = refl
take-take (suc n) (b ∷ bs) = ap (λ t. b ∷ t) (take-take n bs)

module _ (S : Signing) (past_end : Bytes → Result IdentityError Bytes) where
  -- The parts of the hashed text are not separated: the end of the name can be moved to the front of
  -- the location, and the signatures are as valid as before.
  pub signatures_valid-moved :
      (p : Profile) (front back : Bytes)
      → p.information.name ≡ front ++ back
      → signatures_valid S past_end (record p {
        information = record p.information {
          name = front;
          location = back ++ p.information.location;
        };
      })
        ≡ signatures_valid S past_end p
  unfolding signatures_valid hash valid_identity_signature valid_ethereum_signature
      identity_public_key_of ethereum_public_key_of
  signatures_valid-moved p front back h = rw (input-moved p.information front back h) refl

  -- A profile whose version fits a byte and that `ToProtobuf` takes without an error is read back
  -- as a profile that `SignaturesValid` judges as the first, and that gives the same protobuf
  -- message again.
  pub signatures_valid-published :
      (p : Profile) (m : ProtoProfile)
      → p.information.version < 256
      → to_protobuf p ≡ ok m
      → (q : Profile) × (protobuf_to_profile m ≡ ok q)
        × (signatures_valid S past_end q ≡ signatures_valid S past_end p)
        × (to_protobuf q ≡ ok m)
  unfolding to_protobuf protobuf_to_profile signatures_valid hash hash_input
      valid_identity_signature valid_ethereum_signature identity_public_key_of
      ethereum_public_key_of
  signatures_valid-published p m v h =
      let (li, le, lc) = guards_passed p m h in
      let plain : Time = record { unix = p.information.timestamp.unix; nanos = 0 } in
      (
        record p { information = record p.information { timestamp = plain } },
        ground arith,
        refl,
        ground arith,
      )

  -- What a signed profile is.
  sign_parts :
      (E : Ecdsa) (km : KeyManager) (i : Information) (p : Profile)
      → sign_information S past_end E km i ≡ ok p
      → (digest signature : Bytes) × (hash S past_end i ≡ ok digest)
        × (identity_sign S.sign km digest ≡ ok signature)
        × (p ≡ record {
          information = i;
          signatures = record {
            identity_key = signature;
            ethereum_key = ethereum_signature S past_end E km digest;
          };
        })
  unfolding sign_information
  sign_parts E km i p h = elim (Result-cases (hash S past_end i)) [
    | inr (e, ee) ↦ absurd (ground arith)
    | inl (digest, ed) ↦ elim (Result-cases (identity_sign S.sign km digest)) [
      | inr (e, ee) ↦ absurd (ground arith)
      | inl (signature, es) ↦ (digest, signature, ed, es, ground arith)
    ]
  ]

  -- The error of `EthereumSign` is lost: the profile that is returned makes its own check panic.
  pub signatures_valid-unsigned :
      (E : Ecdsa) (km : KeyManager) (i : Information) (p : Profile)
      → sign_information S past_end E km i ≡ ok p
      → ((digest : Bytes) → (e : KeyManagerError) × (ethereum_sign E km digest ≡ err e))
      → length i.identity_pub_key ≡ 32
      → ((text signature : Bytes)
          → identity_sign S.sign km text ≡ ok signature
          → S.verify i.identity_pub_key text signature ≡ true)
      → past_end [] ≡ err slice_panic
      → signatures_valid S past_end p ≡ err slice_panic
  unfolding signatures_valid valid_identity_signature identity_public_key_of ed25519_verify
      signature_65 ethereum_signature
  signatures_valid-unsigned E km i p h fails l law panic =
      let (digest, signature, ed, es, ep) = sign_parts E km i p h in
      let (e, ef) = fails (S.sha256 digest) in ground (arith, law digest signature es)

  -- A profile that was signed with both keys is valid.
  pub signatures_valid-sign_information :
      (E : Ecdsa) (km : KeyManager) (i : Information) (p : Profile)
      → sign_information S past_end E km i ≡ ok p
      → length i.identity_pub_key ≡ 32
      → length i.ethereum_pub_key ≡ 33
      → ((text signature : Bytes)
          → identity_sign S.sign km text ≡ ok signature
          → S.verify i.identity_pub_key text signature ≡ true)
      → ((digest : Bytes)
          → (signature : Bytes) × (ethereum_sign E km digest ≡ ok signature)
            × (length signature ≡ 65)
            × (S.ethereum_verify i.ethereum_pub_key digest (take 64 signature) ≡ true))
      → signatures_valid S past_end p ≡ ok true
  unfolding signatures_valid valid_identity_signature identity_public_key_of ed25519_verify
      signature_65 ethereum_signature valid_ethereum_signature ethereum_public_key_of
  signatures_valid-sign_information E km i p h l le law eth =
      let (digest, signature, ed, es, ep) = sign_parts E km i p h in
      let (sig, eg, lg, vg) = eth (S.sha256 digest) in
      ground (arith, law digest signature es, take-take 64 sig)
