-- ===== src/Dapp/Data/Versions.antt =====
-- Which engine versions are read back, and the published form of a DApp.
use panthalassa.Base.{
  ℕ, ◌≡◌, ◌<◌, ◌^◌, refl, [], ◌∷◌, ◌++◌, arith, IsBytes, length, decimal, itoa, split_dots,
  number-decimal, atoi-number, split_dots-number, hex_encode, hex_decode-encode, ok,
}
use panthalassa.Dapp.Data.{
  Sv, sv_string, Data, RawData, Base64, fragment, fragments, version_of, engine_version_to_sv,
  parse_json_to_data,
}

abbrev pub IsSmall : Sv → Type 0
IsSmall v = (v.major < 2 ^ 63) × (v.minor < 2 ^ 63) × (v.patch < 2 ^ 63)

fragment-decimal : (n : ℕ) → n < 2 ^ 63 → fragment (decimal n) ≡ ok n
unfolding fragment
fragment-decimal n h =
    let read = atoi-number (decimal n) n (number-decimal n (omega arith)) h in ground arith

split_dots-sv_string :
    (v : Sv)
    → IsSmall v
    → split_dots (sv_string v) ≡ decimal v.major ∷ decimal v.minor ∷ decimal v.patch ∷ []
unfolding sv_string
split_dots-sv_string v (a, b, c) =
    let minor_text = decimal v.minor ++ (b'.' ∷ decimal v.patch) in
    rw
      (split_dots-number (decimal v.major) minor_text v.major
        (number-decimal v.major (omega arith))).1
      (rw
        (split_dots-number (decimal v.minor) (decimal v.patch) v.minor
          (number-decimal v.minor (omega arith))).1
        (rw
          (split_dots-number (decimal v.patch) [] v.patch (number-decimal v.patch (omega arith))).0
          refl))

-- An engine version whose three numbers are below 2^63 is read back from its text.
pub engine_version_to_sv-sv_string :
    (v : Sv) → IsSmall v → engine_version_to_sv (sv_string v) ≡ ok v
unfolding engine_version_to_sv fragments version_of
engine_version_to_sv-sv_string v (a, b, c) =
    rw (split_dots-sv_string v (a, b, c))
      (rw (fragment-decimal v.major a, fragment-decimal v.minor b, fragment-decimal v.patch c) refl)

-- The form in which a DApp is published.
unfoldable pub published : Base64 → Data → RawData
unfolding sv_string
published B d = record {
  name = d.name;
  used_signing_key = hex_encode d.used_signing_key;
  code = d.code;
  image = B.encode d.image;
  signature = hex_encode d.signature;
  engine = sv_string d.engine;
  version = itoa d.version;
}

-- A DApp with a signing key of 32 bytes, an engine version whose numbers are below 2^63 and a
-- version that is not negative is what `ParseJsonToData` gives for its published form, in which the
-- key and the signature, which are octets, are hexadecimal, the image is base64 and the versions
-- are decimal.
pub parse_json_to_data-published :
    (B : Base64) (d : Data)
    → length d.used_signing_key ≡ 32
    → IsBytes d.used_signing_key
    → IsBytes d.signature
    → IsSmall d.engine
    → d.version < 2 ^ 63
    → parse_json_to_data B (published B d) ≡ ok d
unfolding parse_json_to_data published itoa
parse_json_to_data-published B d len key_ok signature_ok small fits = ground (
  arith,
  hex_decode-encode d.used_signing_key key_ok,
  hex_decode-encode d.signature signature_ok,
  engine_version_to_sv-sv_string d.engine small,
  B.decode-encode d.image,
  fragment-decimal d.version fits,
)
