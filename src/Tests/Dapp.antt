-- ===== src/Tests/Dapp.antt =====
-- Tests of the published DApps, their storage and the registry.
use panthalassa.Base.{
  ℕ, ◌≡◌, ◌++◌, refl, Bool, true, false, ◌&&◌, Option, none, some, List, [], ◌∷◌, arith, All, Bytes,
  replicate, bytes_beq, bytes_beq_iff, nat_beq, length, Result, ok, err, if◌then◌else◌, hex_encode,
  lookup, bytes_eq,
}
use panthalassa.Tests.Identity.{signing}
use panthalassa.Tests.Models.{transactions, buckets_of, Pairs}
use panthalassa.Dapp.Data.{Data, Base64, verify_signature, parse_json_to_data}
use panthalassa.Dapp.Data.Versions.{published, parse_json_to_data-published}
use panthalassa.Dapp.Data.Signed.{verify_signature-moved}
use panthalassa.Dapp.Storage.{StorageError, DappJson, save_dapp, get, save_all}
use panthalassa.Dapp.Storage.Stored.{get-save_all, IsStored}
use panthalassa.Dapp.Registry.{ran, State, new_state, send, start_dapp}
use panthalassa.Dapp.Registry.Running.{Reach, begin, step, starts, Reach-IsVerified}

abbrev plain_base64 : Base64
plain_base64 = record { encode = λ b. b; decode = λ b. ok b; decode-encode = λ b. refl }

abbrev signing_key : Bytes
signing_key = replicate 32 16

-- A DApp whose signature is the text that is hashed.
abbrev wallet : Data
wallet = record {
  name = [];
  used_signing_key = signing_key;
  code = 1 ∷ [];
  image = 2 ∷ [];
  signature = signing_key ++ (1 ∷ 2 ∷ b'1' ∷ b'.' ∷ b'2' ∷ b'.' ∷ b'3' ∷ b'1' ∷ []);
  engine = record { major = 1; minor = 2; patch = 3 };
  version = 1;
}

abbrev unsigned : Data
unsigned = record wallet { signature = [] }

parse_json_to_data-published_example :
    parse_json_to_data plain_base64 (published plain_base64 wallet) ≡ ok wallet
parse_json_to_data-published_example =
    parse_json_to_data-published plain_base64 wallet refl (omega arith) (omega arith) (omega arith)
      (omega arith)

verify_signature-moved_example :
    verify_signature signing (record wallet { code = (1 ∷ []) ++ (2 ∷ []); image = [] })
    ≡ verify_signature signing (record wallet { code = 1 ∷ []; image = (2 ∷ []) ++ [] })
verify_signature-moved_example = verify_signature-moved signing wallet (1 ∷ []) (2 ∷ []) []

-- A JSON form for one DApp.
unfoldable is_wallet : Data → Bool
is_wallet d =
    nat_beq (length d.name) 0
    && (bytes_beq d.used_signing_key wallet.used_signing_key
        && (bytes_beq d.code wallet.code
            && (bytes_beq d.image wallet.image
                && (bytes_beq d.signature wallet.signature
                    && (nat_beq d.engine.major 1
                        && (nat_beq d.engine.minor 2
                            && (nat_beq d.engine.patch 3 && nat_beq d.version 1)))))))

no_entry : {A : Type 0} (xs : List A) → nat_beq (length xs) 0 ≡ true → xs ≡ []
no_entry [] h = refl
no_entry (x ∷ xs) h = absurd (ground arith)

is_wallet_sound : (d : Data) → is_wallet d ≡ true → wallet ≡ d
unfolding is_wallet
is_wallet_sound d h = ground (
  arith,
  no_entry d.name,
  bytes_beq_iff d.used_signing_key wallet.used_signing_key,
  bytes_beq_iff d.code wallet.code,
  bytes_beq_iff d.image wallet.image,
  bytes_beq_iff d.signature wallet.signature,
)

unfoldable wallet_marshal : Data → Result ℕ Bytes
unfolding is_wallet
wallet_marshal d = if is_wallet d then ok (1 ∷ []) else err 0

abbrev wallet_unmarshal : Bytes → Result ℕ Data
wallet_unmarshal raw = ok wallet

wallet_lem :
    (d : Data) (raw : Bytes)
    → (let b : Bool = true in b) ≡ true
    → wallet_marshal d ≡ ok raw
    → wallet_unmarshal raw ≡ ok d
unfolding wallet_marshal
wallet_lem d raw t h = ground (arith, is_wallet_sound d)

abbrev json : DappJson
json = record {
  marshal = wallet_marshal;
  unmarshal = wallet_unmarshal;
  is_text = λ d. true;
  unmarshal-marshal = wallet_lem;
}

abbrev stored : Option Pairs
stored = some ((signing_key, 1 ∷ []) ∷ [])

get-save_all_example :
    IsStored (transactions StorageError) (buckets_of StorageError) signing json signing_key wallet
unfolding get save_all save_dapp panthalassa.Tests.Models.run_update panthalassa.Bolt.change
    verify_signature panthalassa.Identity.ed25519_verify bytes_beq panthalassa.Base.sort_texts
    panthalassa.Base.decimal panthalassa.Base.itoa wallet_marshal panthalassa.Tests.Models.put_pair
    lookup panthalassa.Base.insert
get-save_all_example =
    get-save_all (transactions StorageError) (buckets_of StorageError) signing json
      (unsigned ∷ wallet ∷ []) signing_key wallet (refl, (refl, tt)) refl

abbrev empty : State ℕ
empty = record { instances = []; streams = [] }

abbrev running : State ℕ
running = record {
  instances = (hex_encode signing_key, record { app = wallet; vm = 5 }) ∷ [];
  streams = [];
}

reached : Reach ℕ (transactions StorageError) (buckets_of StorageError) signing json running
unfolding new_state send start_dapp get lookup bytes_beq verify_signature
    panthalassa.Identity.ed25519_verify panthalassa.Base.sort_texts panthalassa.Base.decimal
    panthalassa.Base.itoa panthalassa.Base.insert
reached = step empty running begin (starts (ok tt) (ok tt) (ran 5) signing_key stored empty)

Reach-IsVerified_example :
    (hex_encode signing_key ≡ hex_encode signing_key) × (verify_signature signing wallet ≡ ok true)
unfolding lookup bytes_beq hex_encode
Reach-IsVerified_example =
    Reach-IsVerified ℕ (transactions StorageError) (buckets_of StorageError) signing json running
      reached (hex_encode signing_key) (record { app = wallet; vm = 5 }) refl
