-- ===== src/KeyStore.antt =====
-- keyStore/main.go with mnemonic/mnemonic.go: the key store of an account, which is brought up to
-- date by the migrations each time it is read. go-bip39, the curves and the JSON text are
-- parameters. A value of the key map is a text, as the list of its bytes.
pub mod Migrations
pub mod Stability
use panthalassa.Base.{
  ℕ, Bool, true, false, ◌&&◌, String, Option, none, some, [], ◌∷◌, Bytes, lookup, string_eq, length,
  nat_beq, bytes_beq, Result, ok, err, ◌>>=◌, ◌>>◌, guard,
}
use panthalassa.KeyStore.Migrations.{
  Foreign, Keys, KeyStoreError, key_missing, invalid_mnemonic, json_failed, mnemonic_panic,
  nil_map_panic, ethereum_up, ed25519_up, chat_up, encryption_key_up,
}

pub record Store : Type 0 where
  pub mnemonic : Bytes
  pub keys : Keys
  pub version : ℕ
  pub changed : Bool

-- The map is nil where the text has none.
pub record JsonStore : Type 0 where
  pub mnemonic : Bytes
  pub keys : Option Keys
  pub version : ℕ

-- Go's `encoding/json` for the type `jsonStore`.
pub record StoreJson : Type 0 where
  pub marshal : JsonStore → Result ℕ Bytes
  pub unmarshal : Bytes → Result ℕ JsonStore

unfoldable pub get_key : Store → String → Result KeyStoreError Bytes
get_key s key = elim (lookup key s.keys) [ none ↦ err key_missing | some v ↦ ok v ]

-- `reflect.DeepEqual` of two key maps: each key of either has one value in both.
unfoldable pub same_value : Option Bytes → Option Bytes → Bool
same_value none none = true
same_value (some v) (some w) = bytes_beq v w
same_value _ _ = false

unfoldable pub has_all : Keys → Keys → Keys → Bool
unfolding same_value
has_all [] a b = true
has_all ((k, v) ∷ rest) a b = same_value (lookup k a) (lookup k b) && has_all rest a b

unfoldable pub deep_equal : Keys → Keys → Bool
unfolding has_all
deep_equal a b = nat_beq (length a) (length b) && (has_all a a b && has_all b a b)

module _ (F : Foreign) where
  -- The loop over `migrations`.
  unfoldable pub run_migrations : Bytes → Keys → Result KeyStoreError Keys
  run_migrations mnemonic keys = do
    ethereum ← ethereum_up F mnemonic keys
    ed25519 ← ed25519_up F mnemonic ethereum
    chat ← chat_up F mnemonic ed25519
    encryption_key_up F mnemonic chat

  -- A Go map is a reference, and each migration writes to the map that it is given and returns it:
  -- `oldKeys` and `s.keys` are one map, so the comparison reads the new entries on both sides.
  unfoldable pub migrate_up : Store → Result KeyStoreError Store
  unfolding deep_equal
  migrate_up s = do
    keys ← run_migrations s.mnemonic s.keys
    let old_keys : Keys = keys
    ok (record s { keys = keys; changed = deep_equal old_keys keys })

  -- The migrations of a nil map, which has no key: the first one that succeeds writes to it, and panics.
  unfoldable pub migrate_nil : Bytes → Result KeyStoreError Store
  migrate_nil mnemonic = ethereum_up F mnemonic [] >>= λ keys. err nil_map_panic

  -- `mnemonic.FromString`
  unfoldable pub from_string : Bytes → Result KeyStoreError Bytes
  from_string text = do guard (F.mnemonic_valid text) invalid_mnemonic; ok text

  -- `Mnemonic.String`
  unfoldable pub mnemonic_text : Bytes → Result KeyStoreError Bytes
  mnemonic_text m = do guard (F.mnemonic_valid m) mnemonic_panic; ok m

  unfoldable pub new_from_mnemonic : Bytes → Result KeyStoreError Store
  new_from_mnemonic mnemonic =
      migrate_up (record { mnemonic = mnemonic; keys = []; version = 1; changed = false })

  module _ (J : StoreJson) where
    unfoldable pub marshal_store : Store → Result KeyStoreError Bytes
    unfolding mnemonic_text
    marshal_store s = do
      text ← mnemonic_text s.mnemonic
      elim (J.marshal (record { mnemonic = text; keys = some s.keys; version = s.version })) [
        | ok raw ↦ ok raw
        | err e ↦ err (json_failed e)
      ]

    unfoldable pub read_json : Bytes → Result KeyStoreError JsonStore
    read_json raw = elim (J.unmarshal raw) [ ok js ↦ ok js | err e ↦ err (json_failed e) ]

    unfoldable pub unmarshal_store : Bytes → Result KeyStoreError Store
    unfolding read_json from_string migrate_nil
    unmarshal_store raw = do
      js ← read_json raw
      m ← from_string js.mnemonic
      elim js.keys [
        | none ↦ migrate_nil m
        | some keys ↦
            migrate_up (record { mnemonic = m; keys = keys; version = js.version; changed = false })
      ]

unfoldable pub was_migrated : Store → Bool
was_migrated s = s.changed
