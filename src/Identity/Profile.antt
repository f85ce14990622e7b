-- ===== src/Identity/Profile.antt =====
-- profile/profile.go: what an account tells about itself, signed with its identity key and with its
-- Ethereum key. A text is the list of its bytes.
pub mod Signed
use panthalassa.Base.{
  ℕ, Bool, true, ◌++◌, ◌∷◌, [], ◌%◌, Bytes, length, nat_beq, leb, take, hex_decode, Result, ok, err,
  ◌>>=◌, ◌>>◌, guard, map_err, if◌then◌else◌,
}
use panthalassa.KeyManager.{
  KeyManager, KeyManagerError, chat_id_key_pair, identity_public_key, identity_sign, hex,
}
use panthalassa.KeyManager.Ethereum.{Ecdsa, get_ethereum_public_key, ethereum_sign}
use panthalassa.Identity.{
  Time, Signing, IdentityError, invalid_identity_key, invalid_ethereum_key, invalid_chat_key,
  invalid_identity_signature, invalid_ethereum_signature, foreign, key_manager, ed25519_verify,
  time_stamp,
}

pub record Information : Type 0 where
  pub name : Bytes
  pub location : Bytes
  pub image : Bytes
  pub identity_pub_key : Bytes
  pub ethereum_pub_key : Bytes
  pub chat_id_key : Bytes
  pub timestamp : Time
  pub version : ℕ

pub record Signatures : Type 0 where
  pub identity_key : Bytes
  pub ethereum_key : Bytes

pub record Profile : Type 0 where
  pub information : Information
  pub signatures : Signatures

-- The fields of the protobuf message that the code reads and writes.
pub record ProtoProfile : Type 0 where
  pub name : Bytes
  pub location : Bytes
  pub image : Bytes
  pub identity_pub_key : Bytes
  pub ethereum_pub_key : Bytes
  pub chat_identity_pub_key : Bytes
  pub timestamp : ℕ
  pub version : ℕ
  pub identity_key_signature : Bytes
  pub ethereum_key_signature : Bytes

unfoldable pub protobuf_to_profile : ProtoProfile → Result IdentityError Profile
protobuf_to_profile m = do
  guard (nat_beq (length m.identity_pub_key) 32) invalid_identity_key
  guard (nat_beq (length m.ethereum_pub_key) 33) invalid_ethereum_key
  guard (nat_beq (length m.chat_identity_pub_key) 32) invalid_chat_key
  ok (record {
    information = record {
      name = m.name;
      location = m.location;
      image = m.image;
      identity_pub_key = m.identity_pub_key;
      ethereum_pub_key = m.ethereum_pub_key;
      chat_id_key = m.chat_identity_pub_key;
      timestamp = record { unix = m.timestamp; nanos = 0 };
      version = m.version % 256;
    };
    signatures = record {
      identity_key = m.identity_key_signature;
      ethereum_key = m.ethereum_key_signature;
    };
  })

unfoldable pub to_protobuf : Profile → Result IdentityError ProtoProfile
to_protobuf p = do
  guard (nat_beq (length p.information.identity_pub_key) 32) invalid_identity_key
  guard (nat_beq (length p.information.ethereum_pub_key) 33) invalid_ethereum_key
  guard (nat_beq (length p.information.chat_id_key) 32) invalid_chat_key
  ok (record {
    name = p.information.name;
    location = p.information.location;
    image = p.information.image;
    identity_pub_key = p.information.identity_pub_key;
    ethereum_pub_key = p.information.ethereum_pub_key;
    chat_identity_pub_key = p.information.chat_id_key;
    timestamp = p.information.timestamp.unix;
    version = p.information.version;
    identity_key_signature = p.signatures.identity_key;
    ethereum_key_signature = p.signatures.ethereum_key;
  })

-- The bytes that are hashed.
unfoldable pub hash_input : Information → Result IdentityError Bytes
unfolding time_stamp
hash_input i = do
  stamp ← time_stamp i.timestamp
  ok (
      i.name
      ++ (i.location
          ++ (i.image
              ++ (i.identity_pub_key
                  ++ (i.ethereum_pub_key ++ (i.chat_id_key ++ (stamp ++ (i.version ∷ []))))))))

unfoldable pub identity_public_key_of : Profile → Result IdentityError Bytes
identity_public_key_of p = do
  guard (nat_beq (length p.information.identity_pub_key) 32) invalid_identity_key
  ok p.information.identity_pub_key

unfoldable pub ethereum_public_key_of : Profile → Result IdentityError Bytes
ethereum_public_key_of p = do
  guard (nat_beq (length p.information.ethereum_pub_key) 33) invalid_ethereum_key
  ok p.information.ethereum_pub_key

-- What `EthereumKey[:65]` of a shorter signature gives rests on its capacity: a panic, or the bytes
-- that `past_end` says.
module _ (S : Signing) (past_end : Bytes → Result IdentityError Bytes) where
  unfoldable pub hash : Information → Result IdentityError Bytes
  unfolding hash_input
  hash i = do text ← hash_input i; map_err foreign (S.sha2_multihash text)

  unfoldable pub valid_identity_signature : Profile → Bytes → Bytes → Result IdentityError Bool
  unfolding identity_public_key_of ed25519_verify
  valid_identity_signature p msg signature = do
    key ← identity_public_key_of p
    ed25519_verify S key msg signature

  unfoldable pub valid_ethereum_signature : Profile → Bytes → Bytes → Result IdentityError Bool
  unfolding ethereum_public_key_of
  valid_ethereum_signature p msg signature = do
    key ← ethereum_public_key_of p
    ok (S.ethereum_verify key msg (take 64 signature))

  unfoldable pub signature_65 : Bytes → Result IdentityError Bytes
  signature_65 signature =
      if leb 65 (length signature) then ok (take 65 signature) else past_end signature

  unfoldable pub signatures_valid : Profile → Result IdentityError Bool
  unfolding hash valid_identity_signature valid_ethereum_signature signature_65
  signatures_valid p = do
    h ← hash p.information
    by_identity ← valid_identity_signature p h p.signatures.identity_key
    guard by_identity invalid_identity_signature
    sig ← signature_65 p.signatures.ethereum_key
    by_ethereum ← valid_ethereum_signature p (S.sha256 h) sig
    guard by_ethereum invalid_ethereum_signature
    ok true

  -- `DecompressPubkey` and `PubkeyToAddress` are the argument.
  unfoldable pub ethereum_address : (Bytes → Result ℕ Bytes) → Profile → Result IdentityError Bytes
  unfolding signatures_valid ethereum_public_key_of
  ethereum_address address p = do
    valid ← signatures_valid p
    guard valid invalid_ethereum_signature
    key ← ethereum_public_key_of p
    map_err foreign (address key)

  -- The profile before it is signed: the keys are read from the key manager, the time is the clock's.
  unfoldable pub unsigned_information :
      (Bytes → Result KeyManagerError Bytes)
      → Ecdsa
      → Time
      → Bytes
      → Bytes
      → Bytes
      → KeyManager
      → Result IdentityError Information
  unsigned_information past_key_end E now name location image km = do
    chat_id_keys ← map_err key_manager (chat_id_key_pair past_key_end km)
    id_text ← map_err key_manager (identity_public_key km)
    id_raw ← map_err (λ e. key_manager (hex e)) (hex_decode id_text)
    eth_text ← map_err key_manager (get_ethereum_public_key E km)
    eth_raw ← map_err (λ e. key_manager (hex e)) (hex_decode eth_text)
    ok (record {
      name = name;
      location = location;
      image = image;
      identity_pub_key = id_raw;
      ethereum_pub_key = eth_raw;
      chat_id_key = chat_id_keys.1;
      timestamp = now;
      version = 2;
    })

  -- The error of `EthereumSign` is assigned and not read: the signature is then nil.
  unfoldable pub ethereum_signature : Ecdsa → KeyManager → Bytes → Bytes
  ethereum_signature E km digest = elim (ethereum_sign E km (S.sha256 digest)) [
    | ok signature ↦ signature
    | err e ↦ []
  ]

  unfoldable pub sign_information : Ecdsa → KeyManager → Information → Result IdentityError Profile
  unfolding hash ethereum_signature
  sign_information E km i = do
    digest ← hash i
    signature ← map_err key_manager (identity_sign S.sign km digest)
    ok (record {
      information = i;
      signatures = record {
        identity_key = signature;
        ethereum_key = ethereum_signature E km digest;
      };
    })

  unfoldable pub sign_profile :
      (Bytes → Result KeyManagerError Bytes)
      → Ecdsa
      → Time
      → Bytes
      → Bytes
      → Bytes
      → KeyManager
      → Result IdentityError Profile
  unfolding unsigned_information sign_information
  sign_profile past_key_end E now name location image km = do
    i ← unsigned_information past_key_end E now name location image km
    sign_information E km i
