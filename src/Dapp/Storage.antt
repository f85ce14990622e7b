-- ===== src/Dapp/Storage.antt =====
-- dapp/dapp_storage.go: the published DApps, under their signing keys. The form in JSON is a parameter;
-- it gives back a DApp whose names are texts in UTF-8.
pub mod Stored
use panthalassa.Base.{
  ℕ, ◌^◌, ◌≡◌, Bool, true, not, ◌||◌, Option, none, some, List, [], ◌∷◌, Bytes, leb, nat_beq,
  hex_encode, Result, ok, err, ◌>>=◌, ◌>>◌, guard, map_err,
}
use panthalassa.Bolt.{Transactions, Buckets, change}
use panthalassa.Identity.{Signing}
use panthalassa.Dapp.Data.{Data, DappError, verify_signature}

pub data StorageError : Type 0 where
  version_too_low invalid_signature : StorageError
  json bolt : ℕ → StorageError
  dapp : DappError → StorageError

pub record DappJson : Type 0 where
  pub marshal : Data → Result ℕ Bytes
  pub unmarshal : Bytes → Result ℕ Data
  pub is_text : Data → Bool
  pub unmarshal-marshal :
      (d : Data) (raw : Bytes) → is_text d ≡ true → marshal d ≡ ok raw → unmarshal raw ≡ ok d

module _ (T : Transactions StorageError) (B : Buckets StorageError) (S : Signing)
    (J : DappJson) where
  unfoldable pub bucket_or_empty : Option B.Bucket → B.Bucket
  bucket_or_empty none = B.empty
  bucket_or_empty (some b) = b

  -- `Version < 1`, of a signed number.
  unfoldable pub is_too_low : ℕ → Bool
  is_too_low version = nat_beq version 0 || leb (2 ^ 63) version

  unfoldable pub save_body : Data → Option B.Bucket → Result StorageError (Option B.Bucket)
  unfolding is_too_low bucket_or_empty
  save_body d s = do
    guard (not (is_too_low d.version)) version_too_low
    valid ← map_err dapp (verify_signature S d)
    guard valid invalid_signature
    raw ← map_err json (J.marshal d)
    b ← B.put d.used_signing_key raw (bucket_or_empty s)
    ok (some b)

  -- The keys that are sent to the app when the transaction is committed.
  unfoldable pub notified : Data → Result StorageError (Unit {0}) → List Bytes
  notified d (ok u) = hex_encode d.used_signing_key ∷ []
  notified d (err e) = []

  -- `SaveDApp`
  unfoldable pub save_dapp :
      Data → Option B.Bucket → Result StorageError (Unit {0}) × Option B.Bucket
  unfolding save_body
  save_dapp d = T.update (Option B.Bucket) (Unit {0}) (change (save_body d))

  unfoldable pub read_dapp : Option Bytes → Result StorageError (Option Data)
  read_dapp none = ok none
  read_dapp (some raw) = do d ← map_err json (J.unmarshal raw); ok (some d)

  unfoldable pub raw_dapp : Bytes → Option B.Bucket → Option Bytes
  raw_dapp key none = none
  raw_dapp key (some b) = B.get key b

  -- `Get`
  unfoldable pub get : Bytes → Option B.Bucket → Result StorageError (Option Data)
  unfolding read_dapp raw_dapp
  get key s = read_dapp (raw_dapp key s)

  -- `All`, with the DApps that were read before an error.
  unfoldable pub read_all : List (Bytes × Bytes) → List Data × Option StorageError
  read_all [] = ([], none)
  read_all (entry ∷ entries) =
      let rest = read_all entries in
      elim (J.unmarshal entry.1) [ err e ↦ ([], some (json e)) | ok d ↦ (d ∷ rest.0, rest.1) ]

  unfoldable pub all : Option B.Bucket → List Data × Option StorageError
  unfolding read_all
  all none = ([], none)
  all (some b) = read_all (B.entries b)

  unfoldable pub save_all : List Data → Option B.Bucket → Option B.Bucket
  save_all [] s = s
  save_all (d ∷ ds) s = save_all ds (save_dapp d s).1
