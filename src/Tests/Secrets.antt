-- ===== src/Tests/Secrets.antt =====
-- Tests of the shared secrets and of the signed pre keys of users.
use panthalassa.Base.{
  ℕ, ◌≡◌, ◌+◌, refl, Bool, true, false, ◌&&◌, Option, none, some, List, [], ◌∷◌, ◌++◌, arith, Bytes,
  IsBytes, replicate, length, nat_beq, bytes_beq, bytes_beq_iff, if◌then◌else◌, Result, ok, err,
  insert, lookup, bytes_eq, not, Bool-cases, inl, inr,
}
use panthalassa.Bolt.{change}
use panthalassa.Bolt.Within.{raw_at, created, bucket_or_empty}
use panthalassa.Crypto.Aes.{CipherText}
use panthalassa.Identity.{Time, after, zero_key}
use panthalassa.Identity.PreKey.{PreKey, ProtoPreKey, verify_signature, to_protobuf}
use panthalassa.Db.Vault.{DbError}
use panthalassa.Db.SharedSecrets.{SharedSecret, PersistedSharedSecret, SecretJson}
use panthalassa.Tests.Models.{
  transactions, buckets, nested, Chats, run_update, put_pair, create_chat,
}
use panthalassa.Db.Users.{PreKeyProto, put_signed_pre_key, get_signed_pre_key}
use panthalassa.Db.Users.Stored.{run, verify_signature-get}
use panthalassa.Tests.Identity.{signing, signed_key}
use panthalassa.Tests.Texts.{plain_cipher_text}

-- A JSON form for one secret, which fails for any other.
abbrev pub our_secret : SharedSecret
our_secret = record {
  x3dh_ss = replicate 32 6;
  accepted = true;
  created_at = record { unix = 9; nanos = 0 };
  destroy_at = none;
  ephemeral_key = zero_key;
  ephemeral_key_signature = [];
  used_signed_pre_key = zero_key;
  used_one_time_pre_key = none;
  base_id = replicate 32 3;
  id = [];
  id_init_params = [];
}

abbrev our_persisted : PersistedSharedSecret
our_persisted = record { shared_secret = our_secret; x3dh_ss = plain_cipher_text (replicate 32 6) }

unfoldable pub is_none : {A : Type 0} → Option A → Bool
is_none none = true
is_none (some a) = false

unfoldable pub same_cipher_text : CipherText → Bool
same_cipher_text ct =
    bytes_beq ct.iv []
    && (bytes_beq ct.cipher_text (replicate 32 6) && (bytes_beq ct.mac [] && nat_beq ct.version 2))

unfoldable pub same_secret : SharedSecret → Bool
same_secret ss =
    ss.accepted
    && (nat_beq ss.created_at.unix 9
        && (nat_beq ss.created_at.nanos 0
            && (is_none ss.destroy_at
                && (bytes_beq ss.ephemeral_key zero_key
                    && (bytes_beq ss.ephemeral_key_signature []
                        && (bytes_beq ss.used_signed_pre_key zero_key
                            && (is_none ss.used_one_time_pre_key
                                && (bytes_beq ss.base_id (replicate 32 3)
                                    && (bytes_beq ss.id []
                                        && bytes_beq ss.id_init_params [])))))))))

without_secret : SharedSecret → SharedSecret
without_secret ss = record ss { x3dh_ss = zero_key }

same_secret_sound :
    (ss : SharedSecret)
    → same_secret ss ≡ true
    → record our_secret { x3dh_ss = zero_key } ≡ record ss { x3dh_ss = zero_key }
unfolding same_secret is_none
same_secret_sound ss h = ground (
  arith,
  bytes_beq_iff ss.ephemeral_key zero_key,
  bytes_beq_iff ss.ephemeral_key_signature [],
  bytes_beq_iff ss.used_signed_pre_key zero_key,
  bytes_beq_iff ss.base_id (replicate 32 3),
  bytes_beq_iff ss.id [],
  bytes_beq_iff ss.id_init_params [],
)

same_cipher_text_sound :
    (ct : CipherText) → same_cipher_text ct ≡ true → plain_cipher_text (replicate 32 6) ≡ ct
unfolding same_cipher_text
same_cipher_text_sound ct h = ground (
  arith,
  bytes_beq_iff ct.iv [],
  bytes_beq_iff ct.cipher_text (replicate 32 6),
  bytes_beq_iff ct.mac [],
)

unfoldable pub marshal_secret : PersistedSharedSecret → Result ℕ Bytes
unfolding same_secret same_cipher_text is_none bytes_beq
marshal_secret p =
    if same_secret p.shared_secret && same_cipher_text p.x3dh_ss then ok (1 ∷ []) else err 0

unfoldable pub unmarshal_secret : Bytes → Result ℕ PersistedSharedSecret
unmarshal_secret raw =
    ok (record our_persisted { shared_secret = record our_secret { x3dh_ss = zero_key } })

pub marshal_secret_lem :
    (p : PersistedSharedSecret) (raw : Bytes)
    → marshal_secret p ≡ ok raw
    → unmarshal_secret raw
      ≡ ok (record p { shared_secret = record p.shared_secret { x3dh_ss = zero_key } })
unfolding marshal_secret unmarshal_secret
marshal_secret_lem p raw h =
    ground (arith, same_secret_sound p.shared_secret, same_cipher_text_sound p.x3dh_ss)

abbrev pub secret_json : SecretJson
secret_json = record {
  marshal = marshal_secret;
  unmarshal = unmarshal_secret;
  unmarshal-marshal = marshal_secret_lem;
}

abbrev pub partner : Bytes
partner = replicate 32 1

abbrev pub one_secret : Option Chats
one_secret = some ((partner, (replicate 32 3, 1 ∷ []) ∷ []) ∷ [])

-- The protobuf form of one pre key.
abbrev proto_key : ProtoPreKey
proto_key = to_protobuf signed_key

unfoldable same_key : ProtoPreKey → Bool
unfolding bytes_beq
same_key m =
    bytes_beq m.key proto_key.key
    && (bytes_beq m.identity_key proto_key.identity_key
        && (bytes_beq m.identity_key_signature proto_key.identity_key_signature
            && nat_beq m.time_stamp proto_key.time_stamp))

same_key_sound : (m : ProtoPreKey) → same_key m ≡ true → proto_key ≡ m
unfolding same_key to_protobuf
same_key_sound m h = ground (
  arith,
  bytes_beq_iff m.key proto_key.key,
  bytes_beq_iff m.identity_key proto_key.identity_key,
  bytes_beq_iff m.identity_key_signature proto_key.identity_key_signature,
)

unfoldable pub marshal_key : ProtoPreKey → Result ℕ Bytes
unfolding same_key
marshal_key m = if same_key m then ok (1 ∷ []) else err 0

unfoldable pub unmarshal_key : Bytes → Result ℕ ProtoPreKey
unmarshal_key raw = ok proto_key

pub marshal_key_lem :
    (m : ProtoPreKey) (raw : Bytes) → marshal_key m ≡ ok raw → unmarshal_key raw ≡ ok m
unfolding marshal_key unmarshal_key
marshal_key_lem m raw h = ground (arith, same_key_sound m)

abbrev key_proto : PreKeyProto
key_proto = record {
  marshal = marshal_key;
  unmarshal = unmarshal_key;
  unmarshal-marshal = marshal_key_lem;
}

abbrev read_key : PreKey
read_key = record signed_key { private_key = zero_key; time = record { unix = 100; nanos = 0 } }

verify_signature-get_example : verify_signature signing read_key (replicate 32 17) ≡ ok true
unfolding run put_signed_pre_key verify_signature get_signed_pre_key raw_at bytes_beq
    panthalassa.Base.put_varint run_update change create_chat lookup created marshal_key to_protobuf
    put_pair insert bucket_or_empty unmarshal_key panthalassa.Identity.PreKey.from_protobuf
verify_signature-get_example =
    verify_signature-get (transactions DbError) buckets nested signing key_proto
      ((replicate 32 17, signed_key) ∷ []) (replicate 32 17) read_key refl
