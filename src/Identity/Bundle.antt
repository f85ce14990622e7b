-- ===== src/Identity/Bundle.antt =====
-- backend/pre_key_bundle.go: the keys of a chat partner as the backend hands them out, and how they
-- are checked. A log entry is not modelled.
pub mod Owner
use panthalassa.Base.{Bool, true, false, Option, none, some, Bytes, Result, ok, err, ◌>>=◌}
use panthalassa.Identity.{Signing, IdentityError, nil_panic}
use panthalassa.Identity.PreKey
use panthalassa.Identity.PreKey.{PreKey, ProtoPreKey, verify_signature}
use panthalassa.Identity.Profile
use panthalassa.Identity.Profile.{Profile, ProtoProfile, protobuf_to_profile, signatures_valid}

pub record ProtoPreKeyBundle : Type 0 where
  pub profile : ProtoProfile
  pub signed_pre_key : Option ProtoPreKey
  pub one_time_pre_key : Option ProtoPreKey

pub record PreKeyBundle : Type 0 where
  pub expected_bundle_owner : Bytes
  pub bundle_owner : Profile
  pub signed_pre_key : PreKey
  pub one_time_pre_key : Option PreKey

-- A one time pre key that cannot be read is left out.
unfoldable pub read_one_time_pre_key : Option ProtoPreKey → Option PreKey
read_one_time_pre_key none = none
read_one_time_pre_key (some m) = elim (PreKey.from_protobuf m) [ ok p ↦ some p | err e ↦ none ]

unfoldable pub pre_key_bundle_from_proto :
    Bytes → ProtoPreKeyBundle → Result IdentityError PreKeyBundle
unfolding read_one_time_pre_key
pre_key_bundle_from_proto pub_key m = do
  owner ← protobuf_to_profile m.profile
  signed_key ← elim m.signed_pre_key [ none ↦ err nil_panic | some k ↦ ok k ]
  signed ← PreKey.from_protobuf signed_key
  ok (record {
    expected_bundle_owner = pub_key;
    bundle_owner = owner;
    signed_pre_key = signed;
    one_time_pre_key = read_one_time_pre_key m.one_time_pre_key;
  })

unfoldable pub identity_key : PreKeyBundle → Bytes
identity_key b = b.bundle_owner.information.chat_id_key

unfoldable pub signed_pre_key_of : PreKeyBundle → Bytes
signed_pre_key_of b = b.signed_pre_key.public_key

unfoldable pub one_time_pre_key_of : PreKeyBundle → Option Bytes
one_time_pre_key_of b = elim b.one_time_pre_key [ none ↦ none | some p ↦ some p.public_key ]

module _ (S : Signing) (past_end : Bytes → Result IdentityError Bytes) where
  unfoldable pub valid_one_time_pre_key : Bytes → Option PreKey → Result IdentityError Bool
  valid_one_time_pre_key owner none = ok true
  valid_one_time_pre_key owner (some p) = verify_signature S p owner

  -- `if err != nil || !valid { return valid, err }` before the next check.
  unfoldable pub and_next : Bool → Result IdentityError Bool → Result IdentityError Bool
  and_next true next = next
  and_next false next = ok false

  unfoldable pub valid_signature : PreKeyBundle → Result IdentityError Bool
  unfolding valid_one_time_pre_key and_next
  valid_signature b = do
    profile_valid ← signatures_valid S past_end b.bundle_owner
    signed_valid ←
        and_next profile_valid (verify_signature S b.signed_pre_key b.expected_bundle_owner)
    and_next signed_valid (valid_one_time_pre_key b.expected_bundle_owner b.one_time_pre_key)
