-- ===== src/KeyManager/Backup.antt =====
-- An exported account can be opened again, with the password or with the mnemonic.
use panthalassa.Base.{
  ◌≡◌, refl, true, false, some, Bytes, IsBytes, bytes_beq, bytes_beq_iff, length, arith, ok,
}
use panthalassa.Crypto.Scrypt.{Scrypt}
use panthalassa.Crypto.Scrypt.RoundTrip.{decrypt-new_cipher_text}
use panthalassa.KeyStore.Migrations.{Foreign}
use panthalassa.KeyStore.{
  Store, StoreJson, JsonStore, migrate_up, marshal_store, unmarshal_store, mnemonic_text,
}
use panthalassa.KeyStore.Stability.{migrate_up_idem}
use panthalassa.KeyManager.{Account, KeyManager, export, open_with_password, open_with_mnemonic}

-- The JSON form of a key store.
abbrev pub to_json : Store → JsonStore
to_json s = record { mnemonic = s.mnemonic; keys = some s.keys; version = s.version }

migrate_up_changed :
    (F : Foreign) (s : Store) → migrate_up F (record s { changed = false }) ≡ migrate_up F s
unfolding migrate_up
migrate_up_changed F s = refl

module _ (S : Scrypt) (F : Foreign) (J : StoreJson) (before : Store) (km : KeyManager)
    (migrated : migrate_up F before ≡ ok km.key_store)
    (valid : F.mnemonic_valid km.key_store.mnemonic ≡ true) (json : Bytes)
    (written : J.marshal (to_json km.key_store) ≡ ok json)
    (parsed : J.unmarshal json ≡ ok (to_json km.key_store)) (json_bytes : IsBytes json) where
  marshal_ok : marshal_store F J km.key_store ≡ ok json
  unfolding marshal_store
  marshal_ok = rw valid (rw written)

  unmarshal_ok : unmarshal_store F J json ≡ ok km.key_store
  unfolding unmarshal_store
  unmarshal_ok =
      ground
        (arith, migrate_up_changed F km.key_store, migrate_up_idem F before km.key_store migrated)

  -- An account that is exported with a confirmed password gives back its key store, with all its
  -- keys, when it is opened with that password, and when it is opened with the mnemonic. The key
  -- store is one that migrations have brought up to date, its mnemonic is valid and its JSON form
  -- reads back; the derived keys have 32 bytes and the IVs 16.
  pub open-export :
      (pw salt1 iv1 key1 salt2 iv2 key2 : Bytes)
      → IsBytes pw
      → S.derive_key pw salt1 16384 8 1 32 ≡ ok key1
      → length key1 ≡ 32
      → length iv1 ≡ 16
      → S.derive_key km.key_store.mnemonic salt2 16384 8 1 32 ≡ ok key2
      → length key2 ≡ 32
      → length iv2 ≡ 16
      → (a : Account) × (export S F J (salt1, iv1, salt2, iv2) km pw pw ≡ ok a)
        × (open_with_password S F J a pw
            ≡ ok (record { key_store = km.key_store; account = some a }))
        × (open_with_mnemonic S F J a km.key_store.mnemonic
            ≡ ok (record { key_store = km.key_store; account = some a }))
  unfolding export open_with_mnemonic mnemonic_text
  open-export pw salt1 iv1 key1 salt2 iv2 key2 pw_bytes d1 k1 i1 d2 k2 i2 =
      let (store, e1, o1) = decrypt-new_cipher_text S salt1 iv1 json pw key1 d1 k1 i1 json_bytes in
      let (password, e2, o2) =
        decrypt-new_cipher_text S salt2 iv2 pw km.key_store.mnemonic key2 d2 k2 i2 pw_bytes in
      let same : bytes_beq pw pw ≡ true = (bytes_beq_iff pw pw).1 refl in
      (
        record { password = password; encrypted_key_store = store; version = 2 },
        rw same (rw marshal_ok (rw e1 (rw valid (rw e2)))),
        rw o1 (rw unmarshal_ok),
        rw o2 (rw o1 (rw unmarshal_ok)),
      )
