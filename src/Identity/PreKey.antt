-- ===== src/Identity/PreKey.antt =====
-- chat/prekey/key.go: a pre key with the signature of its owner.
pub mod Signed
use panthalassa.Base.{
  ℕ, Bool, ◌++◌, Bytes, length, nat_beq, bytes_beq, not, hex_decode, Result, ok, ◌>>=◌, ◌>>◌, guard,
  map_err,
}
use panthalassa.KeyManager.{KeyManager, identity_public_key, identity_sign, hex}
use panthalassa.Identity.{
  Time, after, Signing, IdentityError, invalid_identity_key, no_identity_key, no_pre_key,
  invalid_pre_key, foreign, key_manager, zero_key, ed25519_verify, time_stamp,
}

pub record PreKey : Type 0 where
  pub public_key : Bytes
  pub private_key : Bytes
  pub identity_public_key : Bytes
  pub signature : Bytes
  pub time : Time

-- The fields of the protobuf message that the code reads and writes.
pub record ProtoPreKey : Type 0 where
  pub key : Bytes
  pub identity_key : Bytes
  pub identity_key_signature : Bytes
  pub time_stamp : ℕ

-- What is hashed.
unfoldable pub hash_input : PreKey → Result IdentityError Bytes
unfolding time_stamp
hash_input p = do stamp ← time_stamp p.time; ok ((p.public_key ++ p.identity_public_key) ++ stamp)

-- The owner's key, as `Sign` reads it.
unfoldable pub owner_key : KeyManager → Result IdentityError Bytes
owner_key km = do
  text ← map_err key_manager (identity_public_key km)
  raw ← map_err (λ e. key_manager (hex e)) (hex_decode text)
  guard (nat_beq (length raw) 32) invalid_identity_key
  ok raw

module _ (S : Signing) where
  unfoldable pub hash : PreKey → Result IdentityError Bytes
  unfolding hash_input
  hash p = do
    guard (not (bytes_beq p.identity_public_key zero_key)) no_identity_key
    guard (not (bytes_beq p.public_key zero_key)) no_pre_key
    text ← hash_input p
    map_err foreign (S.sha3_multihash text)

  -- `Sign`, as the signed pre key.
  unfoldable pub sign : KeyManager → PreKey → Result IdentityError PreKey
  unfolding hash owner_key
  sign km p = do
    raw ← owner_key km
    guard (not (bytes_beq p.public_key zero_key)) no_pre_key
    let owned : PreKey = record p { identity_public_key = raw }
    digest ← hash owned
    signature ← map_err key_manager (identity_sign S.sign km digest)
    ok (record owned { signature = signature })

  unfoldable pub verify_signature : PreKey → Bytes → Result IdentityError Bool
  unfolding hash ed25519_verify
  verify_signature p public_key = do digest ← hash p; ed25519_verify S public_key digest p.signature

unfoldable pub to_protobuf : PreKey → ProtoPreKey
to_protobuf p = record {
  key = p.public_key;
  identity_key = p.identity_public_key;
  identity_key_signature = p.signature;
  time_stamp = p.time.unix;
}

unfoldable pub from_protobuf : ProtoPreKey → Result IdentityError PreKey
from_protobuf m = do
  guard (nat_beq (length m.key) 32) invalid_pre_key
  guard (nat_beq (length m.identity_key) 32) invalid_identity_key
  ok (record {
    public_key = m.key;
    private_key = zero_key;
    identity_public_key = m.identity_key;
    signature = m.identity_key_signature;
    time = record { unix = m.time_stamp; nanos = 0 };
  })

-- `OlderThan`: the argument is what the package time gives for `time.Now().Truncate(past)`.
unfoldable pub older_than : Time → PreKey → Bool
older_than truncated_now p = after p.time truncated_now
