-- ===== src/Identity.antt =====
-- chat/prekey, profile and backend/pre_key_bundle.go: what an account signs with its identity key,
-- and what it checks of others. The signature schemes and the hashes of the packages ed25519,
-- go-ethereum and go-multihash are a parameter. An instant is its Unix time, an `int64` as its pattern
-- of 64 bits, with the nanoseconds within that second.
pub mod PreKey
pub mod Profile
pub mod Bundle
use panthalassa.Base.{
  ℕ, ◌+◌, ◌%◌, ◌^◌, Bool, ◌&&◌, ◌||◌, none, some, Bytes, length, ltb, nat_beq, replicate,
  put_varint, Result, ok, err, ◌>>=◌, ◌>>◌, guard,
}
use panthalassa.KeyManager.{KeyManagerError}

pub record Time : Type 0 where
  pub unix : ℕ
  pub nanos : ℕ

-- The zero value of `time.Time`: the first of January of the year 1.
abbrev pub zero_time : Time
zero_time = record { unix = 18446744011573954816; nanos = 0 }

-- `After`, for signed seconds.
unfoldable pub after : Time → Time → Bool
after a b =
    ltb ((b.unix + 2 ^ 63) % 2 ^ 64) ((a.unix + 2 ^ 63) % 2 ^ 64)
    || (nat_beq a.unix b.unix && ltb b.nanos a.nanos)

-- The third-party packages: signatures are verified by key, text and signature; `Sum` of go-multihash
-- with SHA3_256 and with SHA2_256.
pub record Signing : Type 0 where
  pub verify : Bytes → Bytes → Bytes → Bool
  pub sign : Bytes → Bytes → Bytes
  pub ethereum_verify : Bytes → Bytes → Bytes → Bool
  pub sha256 : Bytes → Bytes
  pub sha3_multihash : Bytes → Result ℕ Bytes
  pub sha2_multihash : Bytes → Result ℕ Bytes

pub data IdentityError : Type 0 where
  invalid_identity_key no_identity_key no_pre_key invalid_pre_key : IdentityError
  invalid_ethereum_key invalid_chat_key : IdentityError
  invalid_identity_signature invalid_ethereum_signature : IdentityError
  slice_panic varint_panic verify_panic nil_panic : IdentityError
  foreign : ℕ → IdentityError
  key_manager : KeyManagerError → IdentityError

-- The zero value of an array of 32 bytes.
abbrev pub zero_key : Bytes
zero_key = replicate 32 0

-- `ed25519.Verify` panics at a public key that is not 32 bytes long.
unfoldable pub ed25519_verify : Signing → Bytes → Bytes → Bytes → Result IdentityError Bool
ed25519_verify S key text signature = do
  guard (nat_beq (length key) 32) verify_panic
  ok (S.verify key text signature)

-- `PutVarint` of a Unix time.
unfoldable pub time_stamp : Time → Result IdentityError Bytes
time_stamp t = elim (put_varint t.unix) [ none ↦ err varint_panic | some bytes ↦ ok bytes ]
