-- ===== src/Db/Users.antt =====
-- db/user_storage.go: the signed pre key of each user. The protobuf encoding is a parameter.
pub mod Stored
use panthalassa.Base.{
  ℕ, true, false, Option, none, some, [], ◌∷◌, Bytes, Result, ok, err, ◌>>=◌, map_err, ◌≡◌,
}
use panthalassa.Bolt.{Transactions, Buckets, Nested, change}
use panthalassa.Bolt.Within.{created, bucket_or_empty, raw_at}
use panthalassa.Identity.{Signing}
use panthalassa.Identity.PreKey.{PreKey, ProtoPreKey, verify_signature, to_protobuf, from_protobuf}
use panthalassa.Db.Vault.{DbError, json, identity, invalid_signature}

pub record PreKeyProto : Type 0 where
  pub marshal : ProtoPreKey → Result ℕ Bytes
  pub unmarshal : Bytes → Result ℕ ProtoPreKey
  pub unmarshal-marshal :
      (m : ProtoPreKey) (raw : Bytes) → marshal m ≡ ok raw → unmarshal raw ≡ ok m

-- "signed_pre_key"
abbrev pub signed_pre_key_name : Bytes
signed_pre_key_name =
    b's' ∷ b'i' ∷ b'g' ∷ b'n' ∷ b'e' ∷ b'd' ∷ b'_' ∷ b'p' ∷ b'r' ∷ b'e' ∷ b'_' ∷ b'k' ∷ b'e' ∷ b'y'
    ∷ []

module _ (T : Transactions DbError) (B : Buckets DbError) (N : Nested DbError B.Bucket B.empty)
    (S : Signing) (J : PreKeyProto) where
  unfoldable pub read_pre_key : Bytes → Result DbError PreKey
  read_pre_key raw = do m ← map_err json (J.unmarshal raw); map_err identity (from_protobuf m)

  unfoldable pub get_signed_pre_key : Bytes → Option N.Outer → Result DbError (Option PreKey)
  unfolding read_pre_key
  get_signed_pre_key id_key s = elim (raw_at B N id_key signed_pre_key_name s) [
    | none ↦ ok none
    | some raw ↦ do key ← read_pre_key raw; ok (some key)
  ]

  -- What is written to the bucket of the user.
  unfoldable pub write_pre_key : Bytes → PreKey → N.Outer → Result DbError (Option N.Outer)
  write_pre_key id_key key o = do
    raw ← map_err json (J.marshal (to_protobuf key))
    b ← B.put signed_pre_key_name raw (bucket_or_empty B N (N.bucket id_key o))
    ok (some (N.write_bucket id_key b o))

  -- The update: where the user's bucket cannot be created it returns no error.
  unfoldable pub put_body : Bytes → PreKey → Option N.Outer → Result DbError (Option N.Outer)
  unfolding write_pre_key
  put_body id_key key s = elim (N.create_bucket id_key (created B N s)) [
    | err e ↦ ok (some (created B N s))
    | ok o ↦ write_pre_key id_key key o
  ]

  unfoldable pub put_signed_pre_key :
      Bytes → PreKey → Option N.Outer → Result DbError (Unit {0}) × Option N.Outer
  unfolding put_body
  put_signed_pre_key id_key key s = elim (map_err identity (verify_signature S key id_key)) [
    | err e ↦ (err e, s)
    | ok false ↦ (err invalid_signature, s)
    | ok true ↦ T.update (Option N.Outer) (Unit {0}) (change (put_body id_key key)) s
  ]
