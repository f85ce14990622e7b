-- ===== src/Identity/Bundle/Owner.antt =====
-- Whose keys a bundle gives.
use panthalassa.Base.{◌≡◌, refl, true, Bytes, arith, Result, ok, Result-cases, inl, inr}
use panthalassa.Identity.{Signing, IdentityError}
use panthalassa.Identity.PreKey.{verify_signature}
use panthalassa.Identity.Profile.{Profile, signatures_valid}
use panthalassa.Identity.Bundle.{
  PreKeyBundle, valid_one_time_pre_key, and_next, valid_signature, identity_key,
}

module _ (S : Signing) (past_end : Bytes → Result IdentityError Bytes) where
  -- What a valid bundle rests on.
  pub valid_signature_sound :
      (b : PreKeyBundle)
      → valid_signature S past_end b ≡ ok true
      → (signatures_valid S past_end b.bundle_owner ≡ ok true)
        × (verify_signature S b.signed_pre_key b.expected_bundle_owner ≡ ok true)
        × (valid_one_time_pre_key S past_end b.expected_bundle_owner b.one_time_pre_key ≡ ok true)
  unfolding valid_signature and_next
  valid_signature_sound b h = elim (Result-cases (signatures_valid S past_end b.bundle_owner)) [
    | inr (e, ee) ↦ absurd (ground arith)
    | inl (v, ev) ↦
        elim (Result-cases (verify_signature S b.signed_pre_key b.expected_bundle_owner)) [
          | inr (e, ee) ↦ absurd (ground arith)
          | inl (w, ew) ↦ ground arith
        ]
  ]

  -- The owner of a bundle is not compared with the one that was expected: a valid bundle stays
  -- valid when any other profile with valid signatures takes the owner's place, and then gives
  -- the chat identity key of that profile.
  pub valid_signature-other_owner :
      (b : PreKeyBundle) (other : Profile)
      → valid_signature S past_end b ≡ ok true
      → signatures_valid S past_end other ≡ ok true
      → (valid_signature S past_end (record b { bundle_owner = other }) ≡ ok true)
        × (identity_key (record b { bundle_owner = other }) ≡ other.information.chat_id_key)
  unfolding valid_signature and_next identity_key
  valid_signature-other_owner b other h ho =
      let (p, s, o) = valid_signature_sound b h in (ground arith, refl)
