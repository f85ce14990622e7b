-- ===== src/Tests/Identity.antt =====
-- Tests of the pre keys, the profiles and the bundles.
use panthalassa.Base.{
  ◌≡◌, ◌++◌, refl, true, Option, none, [], ◌∷◌, arith, Bytes, replicate, bytes_beq, bytes_beq_iff,
  Result, ok, err, hex_decode, string_eq, lookup,
}
use panthalassa.KeyStore.Migrations.{Keys, ed25519_private_key, ed25519_public_key}
use panthalassa.KeyStore.{get_key}
use panthalassa.KeyManager.{KeyManager, Account, identity_sign, identity_public_key, hex_key}
use panthalassa.Identity.{Signing, Time, IdentityError, slice_panic}
use panthalassa.Identity.PreKey.{PreKey, owner_key}
use panthalassa.Identity.Profile.{Profile, ProtoProfile}
use panthalassa.Identity.Bundle.{PreKeyBundle}

-- A signature is the text itself, and a hash too.
abbrev pub signing : Signing
signing = record {
  verify = λ key text signature. bytes_beq text signature;
  sign = λ key text. text;
  ethereum_verify = λ key text signature. true;
  sha256 = λ text. text;
  sha3_multihash = λ text. ok text;
  sha2_multihash = λ text. ok text;
}

abbrev pub our_key : Bytes
our_key = replicate 32 16

abbrev keys : Keys
keys = (ed25519_private_key, 48 ∷ 50 ∷ []) ∷ (ed25519_public_key, replicate 64 b'1') ∷ []

abbrev pub our_manager : KeyManager
our_manager = record {
  key_store = record { mnemonic = []; keys = keys; version = 1; changed = true };
  account = let o : Option Account = none in o;
}

abbrev pub now : Time
now = record { unix = 100; nanos = 5 }

abbrev plain_key : PreKey
plain_key = record {
  public_key = replicate 32 7;
  private_key = replicate 32 8;
  identity_public_key = replicate 32 0;
  signature = [];
  time = now;
}

pub our_key_lem : owner_key our_manager ≡ ok (replicate 32 17)
unfolding owner_key identity_public_key get_key lookup hex_decode
our_key_lem = refl

pub verifies :
    (text signature : Bytes)
    → identity_sign signing.sign our_manager text ≡ ok signature
    → bytes_beq text signature ≡ true
unfolding identity_sign hex_key get_key lookup hex_decode
verifies text signature h = ground (arith, (bytes_beq_iff text signature).1)

abbrev pub signed_key : PreKey
signed_key = record plain_key {
  identity_public_key = replicate 32 17;
  signature = replicate 32 7 ++ (replicate 32 17 ++ (200 ∷ 1 ∷ []));
}

abbrev past_end : Bytes → Result IdentityError Bytes
past_end bs = err slice_panic

abbrev profile : Bytes → Profile
profile name = record {
  information = record {
    name = name;
    location = [];
    image = [];
    identity_pub_key = replicate 32 17;
    ethereum_pub_key = replicate 33 1;
    chat_id_key = replicate 32 2;
    timestamp = now;
    version = 2;
  };
  signatures = record {
    identity_key =
        name ++ (replicate 32 17 ++ (replicate 33 1 ++ (replicate 32 2 ++ (200 ∷ 1 ∷ 2 ∷ []))));
    ethereum_key = replicate 65 3;
  };
}

abbrev pub proto_profile : ProtoProfile
proto_profile = record {
  name = b'a' ∷ [];
  location = [];
  image = [];
  identity_pub_key = replicate 32 17;
  ethereum_pub_key = replicate 33 1;
  chat_identity_pub_key = replicate 32 2;
  timestamp = 100;
  version = 2;
  identity_key_signature = (profile (b'a' ∷ [])).signatures.identity_key;
  ethereum_key_signature = replicate 65 3;
}

abbrev bundle : PreKeyBundle
bundle = record {
  expected_bundle_owner = replicate 32 17;
  bundle_owner = profile (b'a' ∷ []);
  signed_pre_key = signed_key;
  one_time_pre_key = none;
}
