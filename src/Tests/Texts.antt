-- ===== src/Tests/Texts.antt =====
-- Concrete functions for the vault, the ciphers and the JSON form of messages.
use panthalassa.Base.{
  ℕ, ◌<◌, ◌≡◌, refl, Bool, true, ◌&&◌, none, [], ◌∷◌, arith, Bytes, IsBytes, bytes_beq,
  bytes_beq_iff, nat_beq, bytes_eq, if◌then◌else◌, Result, ok, err, Bool-cases, inl, inr, length,
  replicate, not,
}
use panthalassa.Crypto.Aes.{Ciphers, CipherText, AesError}
use panthalassa.Db.Vault.{Vault, DbError, json}
use panthalassa.Db.Message.{Message, is_dapp}
use panthalassa.Db.ChatMessages.{MessageJson}

-- A cipher that hides nothing; its cipher texts have no IV and no MAC.
abbrev pub plain_cipher_text : Bytes → CipherText
plain_cipher_text text = record { iv = []; cipher_text = text; mac = []; version = 2 }

unfoldable pub plain_encrypt : Result AesError Bytes → Bytes → Result DbError CipherText
plain_encrypt (ok iv) text = ok (plain_cipher_text text)
plain_encrypt (err e) text = err (json 0)

unfoldable pub plain_decrypt : CipherText → Result DbError Bytes
plain_decrypt ct = ok ct.cipher_text

unfoldable pub plain_marshal : CipherText → Result DbError Bytes
plain_marshal ct =
    if nat_beq (length ct.iv) 0 && (nat_beq (length ct.mac) 0 && nat_beq ct.version 2)
    then ok ct.cipher_text
    else err (json 1)

unfoldable pub plain_unmarshal : Bytes → Result DbError CipherText
plain_unmarshal raw = ok (plain_cipher_text raw)

pub plain_decrypt-encrypt :
    (random : Result AesError Bytes) (text : Bytes) (ct : CipherText)
    → IsBytes text
    → plain_encrypt random text ≡ ok ct
    → plain_decrypt ct ≡ ok text
unfolding plain_encrypt plain_decrypt
plain_decrypt-encrypt (ok iv) text ct b h = ground arith
plain_decrypt-encrypt (err e) text ct b h = ground arith

pub plain_unmarshal-marshal :
    (ct : CipherText) (raw : Bytes) → plain_marshal ct ≡ ok raw → plain_unmarshal raw ≡ ok ct
unfolding plain_marshal plain_unmarshal
plain_unmarshal-marshal ct raw h = ground arith

abbrev pub plain_vault : Vault
plain_vault = record {
  encrypt = plain_encrypt;
  decrypt = plain_decrypt;
  marshal = plain_marshal;
  unmarshal = plain_unmarshal;
  decrypt-encrypt = plain_decrypt-encrypt;
  unmarshal-marshal = plain_unmarshal-marshal;
}

-- Ciphers whose key stream is constant.
pub five_is_a_byte : (key iv : Bytes) (i : ℕ) → 5 < 256
five_is_a_byte key iv i = omega arith

pub same_text : (key iv text : Bytes) → IsBytes text → text ≡ text
same_text key iv text b = refl

abbrev pub ciphers : Ciphers
ciphers = record {
  hmac_sha256 = λ key text. text;
  ctr_key_stream = λ key iv i. 5;
  ctr_key_stream_byte = five_is_a_byte;
  cfb_encrypt = λ key iv text. text;
  cfb_decrypt = λ key iv text. text;
  cfb_decrypt-encrypt = same_text;
}

-- A JSON form for one message, which fails for any other.
abbrev pub sample : Message
sample = record {
  id = 7 ∷ [];
  version = 1;
  status = 500;
  received = true;
  dapp = none;
  message = 104 ∷ 105 ∷ [];
  created_at = 3000000000;
  sender = replicate 32 1;
  database_id = 3000000000;
}

unfoldable pub is_sample : Message → Bool
unfolding bytes_beq is_dapp
is_sample m =
    bytes_beq m.id sample.id
    && (nat_beq m.version 1
        && (nat_beq m.status 500
            && (m.received
                && (not (is_dapp m.dapp)
                    && (bytes_beq m.message sample.message
                        && (nat_beq m.created_at 3000000000
                            && (bytes_beq m.sender sample.sender
                                && nat_beq m.database_id 3000000000)))))))

is_sample_sound : (m : Message) → is_sample m ≡ true → sample ≡ m
unfolding is_sample
is_sample_sound m h = ground (
  arith,
  bytes_beq_iff m.id sample.id,
  bytes_beq_iff m.message sample.message,
  bytes_beq_iff m.sender sample.sender,
)

unfoldable pub sample_marshal : Message → Result ℕ Bytes
unfolding is_sample
sample_marshal m = if is_sample m then ok (1 ∷ []) else err 0

unfoldable pub sample_unmarshal : Bytes → Result ℕ Message
sample_unmarshal raw = ok sample

one_byte : {raw : Bytes} → (let r : Result ℕ Bytes = ok (1 ∷ []) in r) ≡ ok raw → IsBytes raw
one_byte {raw} h = let e : raw ≡ 1 ∷ [] = ground arith in rw e (omega arith, tt)

pub sample_marshal_bytes : (m : Message) (raw : Bytes) → sample_marshal m ≡ ok raw → IsBytes raw
unfolding sample_marshal
sample_marshal_bytes m raw h = elim (Bool-cases (is_sample m)) [
  | inl t ↦ one_byte (rw t at h)
  | inr f ↦ ground arith
]

pub sample_lem :
    (m : Message) (raw : Bytes) → sample_marshal m ≡ ok raw → sample_unmarshal raw ≡ ok m
unfolding sample_marshal sample_unmarshal
sample_lem m raw h = ground (arith, is_sample_sound m)

abbrev pub message_json : MessageJson
message_json = record {
  marshal = sample_marshal;
  unmarshal = sample_unmarshal;
  marshal_bytes = sample_marshal_bytes;
  unmarshal-marshal = sample_lem;
}
