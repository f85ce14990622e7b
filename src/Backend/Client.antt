-- ===== src/Backend/Client.antt =====
-- backend/chat.go, and the signed pre key that backend/backend.go uploads at the start. What `request`
-- returns is an argument: a response of the backend, or an error. A pre key bundle has its profile.
pub mod Upload
use panthalassa.Base.{
  ℕ, ◌-◌, ◌^◌, Option, none, some, [], ◌∷◌, Bytes, Result, ok, err, ◌>>=◌, ◌>>◌, guard, map_err,
}
use panthalassa.Bolt.{Transactions, Buckets}
use panthalassa.Crypto.Aes.{AesError}
use panthalassa.KeyManager.{KeyManager}
use panthalassa.Db.Vault.{Vault, DbError}
use panthalassa.Db.OneTimePreKeys.{KeyPair}
use panthalassa.Db.SignedPreKeys.{SignedPreKeyJson, all, put}
use panthalassa.Identity.{Time, Signing, IdentityError, zero_key}
use panthalassa.Identity.PreKey.{
  PreKey, ProtoPreKey, sign, to_protobuf, from_protobuf, verify_signature,
}
use panthalassa.Identity.Bundle.{
  ProtoPreKeyBundle, PreKeyBundle, pre_key_bundle_from_proto, valid_signature,
}

-- The field of a response that the code reads.
pub record Response : Type 0 where
  pub pre_key_bundle : Option ProtoPreKeyBundle

pub data ClientError : Type 0 where
  request : ℕ → ClientError
  identity : IdentityError → ClientError
  invalid_bundle_signatures invalid_signed_pre_key nil_panic : ClientError
  key_pair : ℕ → ClientError
  storage : DbError → ClientError

unfoldable pub bundle_of : Response → Result ClientError ProtoPreKeyBundle
bundle_of r = elim r.pre_key_bundle [ none ↦ err nil_panic | some b ↦ ok b ]

-- `SubmitMessages`
unfoldable pub submit_messages : Result ℕ Response → Result ClientError (Unit {0})
submit_messages answer = map_err request answer >>= λ r. ok tt

module _ (S : Signing) where
  unfoldable pub fetch_pre_key_bundle :
      (Bytes → Result IdentityError Bytes)
      → Bytes
      → Result ℕ Response
      → Result ClientError PreKeyBundle
  unfolding bundle_of
  fetch_pre_key_bundle past_end user answer = do
    r ← map_err request answer
    m ← bundle_of r
    bundle ← map_err identity (pre_key_bundle_from_proto user m)
    valid ← map_err identity (valid_signature S past_end bundle)
    guard valid invalid_bundle_signatures
    ok bundle

  unfoldable pub fetch_signed_pre_key : Bytes → Result ℕ Response → Result ClientError PreKey
  unfolding bundle_of
  fetch_signed_pre_key user answer = do
    r ← map_err request answer
    m ← bundle_of r
    key ← elim m.signed_pre_key [ none ↦ err nil_panic | some k ↦ ok k ]
    pk ← map_err identity (from_protobuf key)
    valid ← map_err identity (verify_signature S pk user)
    guard valid invalid_signed_pre_key
    ok pk

  -- The zero time of Go, in seconds, as a pattern of 64 bits.
  abbrev pub zero_time : Time
  zero_time = record { unix = 2 ^ 64 - 62135596800; nanos = 0 }

  -- The time of the pre key is not set.
  unfoldable pub pre_key_of : KeyPair → PreKey
  pre_key_of pair = record {
    public_key = pair.public_key;
    private_key = pair.private_key;
    identity_public_key = zero_key;
    signature = [];
    time = zero_time;
  }

  -- The pre key is signed twice.
  unfoldable pub signed_pre_key :
      KeyManager → Result ℕ KeyPair → Result ClientError (KeyPair × PreKey)
  unfolding pre_key_of
  signed_pre_key km generated = do
    pair ← map_err key_pair generated
    once ← map_err identity (sign S km (pre_key_of pair))
    twice ← map_err identity (sign S km once)
    ok (pair, twice)

  module _ (T : Transactions DbError) (B : Buckets DbError) (V : Vault) (J : SignedPreKeyJson) where
    -- The request for the upload, and the key pair that is stored where it is answered; none where
    -- there is a key already.
    unfoldable pub prepare_upload :
        KeyManager
        → Result ℕ KeyPair
        → Option B.Bucket
        → Option (Result ClientError (KeyPair × ProtoPreKey))
    unfolding signed_pre_key
    prepare_upload km generated s = elim (all T B V J s) [
      | pair ∷ pairs ↦ none
      | [] ↦ some (signed_pre_key km generated >>= λ r. ok (r.0, to_protobuf r.1))
    ]

    -- The key pair is stored after the backend has the key.
    unfoldable pub finish_upload :
        Result AesError Bytes
        → ℕ
        → KeyPair
        → Result ℕ Response
        → Option B.Bucket
        → Result ClientError (Unit {0}) × Option B.Bucket
    finish_upload random valid_till pair answer s = elim answer [
      | err e ↦ (err (request e), s)
      | ok r ↦ let done = put T B V J random valid_till pair s in (map_err storage done.0, done.1)
    ]
