-- ===== src/Tests/Client.antt =====
-- Tests of the upload of the signed pre key.
use panthalassa.Base.{
  ℕ, ◌≡◌, ◌++◌, refl, Bool, true, ◌&&◌, Option, none, some, [], ◌∷◌, arith, Bytes, IsBytes,
  replicate, bytes_beq, bytes_beq_iff, bytes_eq, nat_beq, Bool-cases, inl, inr, if◌then◌else◌,
  Result, ok, err, lookup, insert, put_varint, put_uvarint, zigzag, hex_decode,
}
use panthalassa.KeyStore.{get_key}
use panthalassa.KeyManager.{identity_sign, identity_public_key, hex_key}
use panthalassa.Identity.{time_stamp}
use panthalassa.Identity.PreKey.{
  PreKey, ProtoPreKey, hash, hash_input, sign, owner_key, to_protobuf,
}
use panthalassa.Identity.Bundle.{ProtoPreKeyBundle}
use panthalassa.Db.Vault.{DbError}
use panthalassa.Db.OneTimePreKeys.{KeyPair}
use panthalassa.Db.SignedPreKeys.{SignedPreKey, SignedPreKeyJson, put, get, all}
use panthalassa.Backend.Client.{Response, fetch_signed_pre_key, prepare_upload, finish_upload}
use panthalassa.Backend.Client.Upload.{fetch_signed_pre_key-upload}
use panthalassa.Tests.Models.{transactions, buckets, Pairs}
use panthalassa.Tests.Texts.{plain_vault}
use panthalassa.Tests.Identity.{signing, our_manager, our_key_lem, verifies, proto_profile}

abbrev pair : KeyPair
pair = record { private_key = replicate 32 8; public_key = replicate 32 7 }

-- A JSON form for one key, which fails for any other.
abbrev entry : SignedPreKey
entry = record {
  valid_till = 9;
  private_key = replicate 32 8;
  public_key = replicate 32 7;
  version = 1;
}

unfoldable is_entry : SignedPreKey → Bool
is_entry k =
    nat_beq k.valid_till 9
    && (bytes_beq k.private_key entry.private_key
        && (bytes_beq k.public_key entry.public_key && nat_beq k.version 1))

is_entry_sound : (k : SignedPreKey) → is_entry k ≡ true → entry ≡ k
unfolding is_entry
is_entry_sound k h = ground (
  arith,
  bytes_beq_iff k.private_key entry.private_key,
  bytes_beq_iff k.public_key entry.public_key,
)

unfoldable marshal : SignedPreKey → Result ℕ Bytes
unfolding is_entry
marshal k = if is_entry k then ok (1 ∷ []) else err 0

marshal_bytes : (k : SignedPreKey) (raw : Bytes) → marshal k ≡ ok raw → IsBytes raw
unfolding marshal
marshal_bytes k raw h = elim (Bool-cases (is_entry k)) [
  | inl t ↦ let e : raw ≡ 1 ∷ [] = ground arith in rw e (omega arith, tt)
  | inr f ↦ ground arith
]

marshal_lem :
    (k : SignedPreKey) (raw : Bytes)
    → marshal k ≡ ok raw
    → (let r : Result ℕ SignedPreKey = ok entry in r) ≡ ok k
unfolding marshal
marshal_lem k raw h = ground (arith, is_entry_sound k)

abbrev json : SignedPreKeyJson
json = record {
  marshal = marshal;
  unmarshal = λ raw. ok entry;
  marshal_bytes = marshal_bytes;
  unmarshal-marshal = marshal_lem;
}

abbrev uploaded : ProtoPreKey
uploaded = record {
  key = replicate 32 7;
  identity_key = replicate 32 17;
  identity_key_signature =
      replicate 32 7 ++ (replicate 32 17 ++ (255 ∷ 219 ∷ 143 ∷ 249 ∷ 206 ∷ 3 ∷ []));
  time_stamp = 18446744011573954816;
}

abbrev bundle : ProtoPreKeyBundle
bundle = record {
  profile = proto_profile;
  signed_pre_key = some uploaded;
  one_time_pre_key = let o : Option ProtoPreKey = none in o;
}

abbrev fetched : Response
fetched = record { pre_key_bundle = some bundle }

abbrev stored : Option Pairs
stored = some ((replicate 32 7, 1 ∷ []) ∷ [])

prepared :
    prepare_upload signing
      (transactions DbError)
      buckets
      plain_vault
      json
      our_manager
      (ok pair)
      none
    ≡ some (ok (pair, uploaded))
unfolding prepare_upload sign hash hash_input time_stamp put_varint put_uvarint zigzag owner_key
    identity_public_key get_key lookup hex_decode identity_sign hex_key bytes_beq all to_protobuf
prepared = refl

finished :
    finish_upload signing
      (transactions DbError)
      buckets
      plain_vault
      json
      (ok [])
      9
      pair
      (ok fetched)
      none
    ≡ (ok tt, stored)
unfolding finish_upload put marshal bytes_beq panthalassa.Tests.Models.run_update
    panthalassa.Bolt.change panthalassa.Db.SignedPreKeys.put_body panthalassa.Db.Vault.seal
    panthalassa.Tests.Texts.plain_encrypt panthalassa.Tests.Texts.plain_marshal
    panthalassa.Tests.Models.put_pair insert
finished = refl

fetch_signed_pre_key-upload_example :
    ((pk : PreKey) × (fetch_signed_pre_key signing (replicate 32 17) (ok fetched) ≡ ok pk)
      × (pk.public_key ≡ replicate 32 7))
    × (get (transactions DbError) buckets plain_vault json (replicate 32 7) stored
        ≡ ok (replicate 32 8))
fetch_signed_pre_key-upload_example =
    fetch_signed_pre_key-upload signing (transactions DbError) buckets plain_vault json our_manager
      (ok pair) pair uploaded (ok []) 9 fetched fetched bundle (replicate 32 17) none none stored
      refl verifies our_key_lem prepared finished refl refl
