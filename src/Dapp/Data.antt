-- ===== src/Dapp/Data.antt =====
-- dapp/dapp_representation.go: a published DApp, its signature, and its form in JSON. A text is the
-- list of its bytes, an `int` is its pattern of 64 bits, the names are a map from languages. Base64 and
-- the signatures are parameters.
pub mod Signed
pub mod Versions
use panthalassa.Base.{
  ◌≡◌, ℕ, Bool, Option, none, some, List, [], ◌∷◌, ◌++◌, map, Bytes, length, nat_beq, Assoc, lookup,
  bytes_eq, sort_texts, decimal, itoa, atoi, split_dots, HexError, hex_decode, Result, ok, err,
  ◌>>=◌, ◌>>◌, guard, map_err,
}
use panthalassa.Identity.{Signing, IdentityError, ed25519_verify}

pub record Sv : Type 0 where
  pub major : ℕ
  pub minor : ℕ
  pub patch : ℕ

-- `String`
unfoldable pub sv_string : Sv → Bytes
sv_string v = decimal v.major ++ (b'.' ∷ (decimal v.minor ++ (b'.' ∷ decimal v.patch)))

pub record Data : Type 0 where
  pub name : Assoc Bytes Bytes
  pub used_signing_key : Bytes
  pub code : Bytes
  pub image : Bytes
  pub signature : Bytes
  pub engine : Sv
  pub version : ℕ

pub data DappError : Type 0 where
  invalid_version invalid_number invalid_key_length : DappError
  hex : HexError → DappError
  base64 hash_error : ℕ → DappError
  identity : IdentityError → DappError

-- A language that the map does not hold has the empty name.
unfoldable pub name_of : Option Bytes → Bytes
name_of none = []
name_of (some name) = name

-- The languages in their order, each before its name.
unfoldable pub write_names : Assoc Bytes Bytes → List Bytes → Bytes
unfolding name_of
write_names names [] = []
write_names names (k ∷ ks) = k ++ (name_of (lookup k names) ++ write_names names ks)

unfoldable pub languages : Assoc Bytes Bytes → List Bytes
languages names = map (λ e. e.0) names

-- The text that is hashed.
unfoldable pub hash_input : Data → Bytes
unfolding write_names languages sv_string
hash_input d =
    write_names d.name (sort_texts (languages d.name))
    ++ (d.used_signing_key ++ (d.code ++ (d.image ++ (sv_string d.engine ++ itoa d.version))))

module _ (S : Signing) where
  unfoldable pub hash : Data → Result DappError Bytes
  unfolding hash_input
  hash d = map_err hash_error (S.sha2_multihash (hash_input d))

  unfoldable pub verify_signature : Data → Result DappError Bool
  unfolding hash
  verify_signature d = do
    text ← hash d
    map_err identity (ed25519_verify S d.used_signing_key text d.signature)

-- `Atoi` with its error, and then `uint`, which keeps the pattern.
unfoldable pub fragment : Bytes → Result DappError ℕ
fragment f = elim (atoi f) [ none ↦ err invalid_number | some n ↦ ok n ]

unfoldable pub fragments : List Bytes → Result DappError (List ℕ)
unfolding fragment
fragments [] = ok []
fragments (f ∷ fs) = do n ← fragment f; ns ← fragments fs; ok (n ∷ ns)

unfoldable pub version_of : List ℕ → Result DappError Sv
version_of (a ∷ b ∷ c ∷ []) = ok (record { major = a; minor = b; patch = c })
version_of other = err invalid_version

unfoldable pub engine_version_to_sv : Bytes → Result DappError Sv
unfolding fragments version_of
engine_version_to_sv version = do
  guard (nat_beq (length (split_dots version)) 3) invalid_version
  numbers ← fragments (split_dots version)
  version_of numbers

pub record RawData : Type 0 where
  pub name : Assoc Bytes Bytes
  pub used_signing_key : Bytes
  pub code : Bytes
  pub image : Bytes
  pub signature : Bytes
  pub engine : Bytes
  pub version : Bytes

-- The package encoding/base64.
pub record Base64 : Type 0 where
  pub encode : Bytes → Bytes
  pub decode : Bytes → Result ℕ Bytes
  pub decode-encode : (b : Bytes) → decode (encode b) ≡ ok b

unfoldable pub parse_json_to_data : Base64 → RawData → Result DappError Data
unfolding engine_version_to_sv fragment
parse_json_to_data B b = do
  key ← map_err hex (hex_decode b.used_signing_key)
  guard (nat_beq (length key) 32) invalid_key_length
  signature ← map_err hex (hex_decode b.signature)
  engine ← engine_version_to_sv b.engine
  image ← map_err base64 (B.decode b.image)
  version ← fragment b.version
  ok (record {
    name = b.name;
    used_signing_key = key;
    code = b.code;
    image = image;
    signature = signature;
    engine = engine;
    version = version;
  })
