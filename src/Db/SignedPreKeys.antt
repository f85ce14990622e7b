-- ===== src/Db/SignedPreKeys.antt =====
-- db/signed_pre_key_storage.go: the signed pre keys of the account, encrypted under their public
-- keys. A run time panic is the error `nil_panic`. The JSON form of an entry is a parameter.
pub mod Stored
use panthalassa.Base.{
  ℕ, Option, none, some, List, [], ◌∷◌, Bytes, IsBytes, length, nat_beq, bytes_beq, not, ◌≡◌,
  Result, ok, err, ◌>>=◌, ◌>>◌, guard, map_err,
}
use panthalassa.Crypto.Aes.{AesError}
use panthalassa.Bolt.{Transactions, Buckets, change}
use panthalassa.Identity.{zero_key}
use panthalassa.Db.Vault.{
  Vault, DbError, json, not_32_bytes, not_found, invalid_private_key, nil_panic, seal, unseal,
}
use panthalassa.Db.OneTimePreKeys.{KeyPair}

pub record SignedPreKey : Type 0 where
  pub valid_till : ℕ
  pub private_key : Bytes
  pub public_key : Bytes
  pub version : ℕ

pub record SignedPreKeyJson : Type 0 where
  pub marshal : SignedPreKey → Result ℕ Bytes
  pub unmarshal : Bytes → Result ℕ SignedPreKey
  pub marshal_bytes : (k : SignedPreKey) (raw : Bytes) → marshal k ≡ ok raw → IsBytes raw
  pub unmarshal-marshal :
      (k : SignedPreKey) (raw : Bytes) → marshal k ≡ ok raw → unmarshal raw ≡ ok k

module _ (T : Transactions DbError) (B : Buckets DbError) (V : Vault) (J : SignedPreKeyJson) where
  unfoldable pub created : Option B.Bucket → B.Bucket
  created none = B.empty
  created (some b) = b

  -- `valid_till` is what the package time gives for 60 days from now.
  unfoldable pub put_body :
      Result AesError Bytes → ℕ → KeyPair → Option B.Bucket → Result DbError (Option B.Bucket)
  unfolding created
  put_body random valid_till pair s = do
    let key : SignedPreKey = record {
      valid_till = valid_till;
      private_key = pair.private_key;
      public_key = pair.public_key;
      version = 1;
    }
    text ← map_err json (J.marshal key)
    raw ← seal V random text
    b ← B.put pair.public_key raw (created s)
    ok (some b)

  unfoldable pub put :
      Result AesError Bytes
      → ℕ
      → KeyPair
      → Option B.Bucket
      → Result DbError (Unit {0}) × Option B.Bucket
  put random valid_till pair =
      T.update (Option B.Bucket) (Unit {0}) (change (put_body random valid_till pair))

  unfoldable pub read_signed_pre_key : Bytes → Result DbError SignedPreKey
  read_signed_pre_key raw = do text ← unseal V raw; map_err json (J.unmarshal text)

  unfoldable pub get_signed_pre_key : Bytes → Option B.Bucket → Result DbError (Option SignedPreKey)
  unfolding read_signed_pre_key
  get_signed_pre_key key none = ok none
  get_signed_pre_key key (some b) = elim (B.get key b) [
    | none ↦ ok none
    | some raw ↦ do k ← read_signed_pre_key raw; ok (some k)
  ]

  -- `Get` takes a field of a key that may be nil.
  unfoldable pub get : Bytes → Option B.Bucket → Result DbError Bytes
  unfolding get_signed_pre_key
  get key s = do
    found ← get_signed_pre_key key s
    elim found [ none ↦ err nil_panic | some k ↦ ok k.private_key ]

  -- One round of `All`.
  unfoldable pub key_pair_of : Bytes → Option B.Bucket → Result DbError KeyPair
  unfolding get_signed_pre_key
  key_pair_of pub_key s = do
    guard (nat_beq (length pub_key) 32) not_32_bytes
    found ← get_signed_pre_key pub_key s
    elim found [
      | none ↦ err not_found
      | some k ↦ do
        guard (not (bytes_beq k.private_key zero_key)) invalid_private_key
        ok (record { public_key = k.public_key; private_key = k.private_key })
    ]

  -- The loop of `All`: an error ends it and is logged, what was collected is returned.
  unfoldable pub all_of : List (Bytes × Bytes) → Option B.Bucket → List KeyPair
  unfolding key_pair_of
  all_of [] s = []
  all_of ((pub_key, raw) ∷ es) s =
      let rest = all_of es s in elim (key_pair_of pub_key s) [ ok pair ↦ pair ∷ rest | err e ↦ [] ]

  unfoldable pub all : Option B.Bucket → List KeyPair
  unfolding all_of
  all none = []
  all (some b) = all_of (B.entries b) (some b)
