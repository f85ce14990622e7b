-- ===== src/Tests/Account.antt =====
-- Tests of the key store, the key manager and the vault.
use panthalassa.Base.{
  ℕ, string_eq, ◌≡◌, refl, false, true, some, List, [], ◌∷◌, arith, Bytes, replicate, lookup, ok,
  Option, none, hex_encode, ◌++◌, bytes_beq, insert,
}
use panthalassa.Bip32.{HdKeys, derive}
use panthalassa.Crypto.Aes.{CipherText}
use panthalassa.Crypto.Scrypt.{Scrypt}
use panthalassa.KeyStore.Migrations.{
  Foreign, Keys, ethereum_up, ethereum_key, check_key, ed25519_up, ed25519_pair, chat_up, chat_pair,
  encryption_key_up, encryption_secret, ethereum_private_key, ed25519_private_key,
  ed25519_public_key, chat_private_key, chat_public_key, encryption_key,
}
use panthalassa.KeyStore.{Store, StoreJson, JsonStore, migrate_up, run_migrations}
use panthalassa.KeyStore.Stability.{migrate_up_idem}
use panthalassa.KeyManager.{Account, KeyManager, export, open_with_password, open_with_mnemonic}
use panthalassa.KeyManager.Backup.{open-export}
use panthalassa.Tests.Texts.{ciphers}

abbrev hd_keys : HdKeys
hd_keys = record {
  Key = List ℕ;
  master_key = λ seed. ok [];
  new_child_key = λ key index. ok (index ∷ key);
  key_bytes = λ key. 171 ∷ [];
}

abbrev test_foreign : Foreign
test_foreign = record {
  mnemonic_valid = λ m. true;
  new_seed = λ m password. replicate 32 16;
  hd_keys = hd_keys;
  ed25519_generate = λ seed. ok (1 ∷ [], 2 ∷ []);
  x3dh_generate = λ seed. ok (3 ∷ [], 4 ∷ []);
}

abbrev phrase : Bytes
phrase = 119 ∷ 120 ∷ []

abbrev empty_store : Store
empty_store = record { mnemonic = phrase; keys = []; version = 1; changed = false }

abbrev full_keys : Keys
full_keys =
    (ethereum_private_key, 97 ∷ 98 ∷ [])
    ∷ (ed25519_private_key, 48 ∷ 50 ∷ [])
    ∷ (ed25519_public_key, 48 ∷ 49 ∷ [])
    ∷ (chat_private_key, 48 ∷ 52 ∷ [])
    ∷ (chat_public_key, 48 ∷ 51 ∷ [])
    ∷ (encryption_key, hex_encode (replicate 32 16))
    ∷ []

abbrev full_store : Store
full_store = record { mnemonic = phrase; keys = full_keys; version = 1; changed = true }

full_store_lem : migrate_up test_foreign empty_store ≡ ok full_store
unfolding migrate_up run_migrations ethereum_up ethereum_key derive bytes_beq check_key lookup
    ed25519_up ed25519_pair insert chat_up chat_pair encryption_key_up encryption_secret hex_encode
full_store_lem = refl

migrate_up_idem_example : migrate_up test_foreign full_store ≡ ok full_store
migrate_up_idem_example = migrate_up_idem test_foreign empty_store full_store full_store_lem

abbrev test_scrypt : Scrypt
test_scrypt = record {
  ciphers = ciphers;
  derive_key = λ pw salt n r p len. ok (replicate 32 9);
  past_end = λ short. none;
}

abbrev full_json : JsonStore
full_json = record { mnemonic = phrase; keys = some full_keys; version = 1 }

abbrev store_json : StoreJson
store_json = record { marshal = λ js. ok (123 ∷ 125 ∷ []); unmarshal = λ raw. ok full_json }

abbrev km : KeyManager
km = record { key_store = full_store; account = let o : Option Account = none in o }

abbrev test_iv : Bytes
test_iv = replicate 16 3

abbrev pw : Bytes
pw = 112 ∷ 119 ∷ []

open-export_example :
    (a : Account) × (export test_scrypt test_foreign store_json ([], test_iv, [], test_iv) km pw pw
      ≡ ok a)
    × (open_with_password test_scrypt test_foreign store_json a pw
        ≡ ok (record { key_store = full_store; account = some a }))
    × (open_with_mnemonic test_scrypt test_foreign store_json a phrase
        ≡ ok (record { key_store = full_store; account = some a }))
open-export_example =
    open-export test_scrypt test_foreign store_json empty_store km full_store_lem refl
      (123 ∷ 125 ∷ []) refl refl (omega arith) pw [] test_iv (replicate 32 9) [] test_iv
      (replicate 32 9) (omega arith) refl refl refl refl refl refl

abbrev encrypted : CipherText
encrypted = record {
  iv = test_iv;
  cipher_text = 109 ∷ 108 ∷ [];
  mac = (109 ∷ 108 ∷ []) ++ (test_iv ++ (2 ∷ []));
  version = 2;
}
