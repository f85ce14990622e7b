-- ===== src/Db/ChatMessages.antt =====
-- db/chat_message_storage.go: the messages with each chat partner, under the time of the message as
-- a big endian key. An `int64` is its pattern of 64 bits; a text is the list of its bytes.
pub mod Valid
pub mod Persist
pub mod Stored
pub mod Pages
use panthalassa.Base.{
  ℕ, zero, suc, ◌+◌, ◌%◌, ◌^◌, ◌≡◌, true, false, Option, none, some, List, [], ◌∷◌, Bytes, IsBytes,
  length, nat_beq, if◌then◌else◌, put_uint64, uint64, Result, ok, err, ◌>>=◌, ◌>>◌, map_err,
  hex_prefix,
}
use panthalassa.Crypto.Aes.{AesError}
use panthalassa.Bolt.{Transactions, Buckets, Nested}
use panthalassa.Db.Vault.{Vault, DbError, not_found, not_32_bytes, json, key_manager, seal, unseal}
use panthalassa.KeyManager.{KeyManager, identity_public_key}
use panthalassa.Db.Message.{status_persisted, DappMessage, Message, valid_message}

-- Go's `encoding/json` for the type `Message`, whose texts are taken to be UTF-8.
pub record MessageJson : Type 0 where
  pub marshal : Message → Result ℕ Bytes
  pub unmarshal : Bytes → Result ℕ Message
  pub marshal_bytes : (m : Message) (raw : Bytes) → marshal m ≡ ok raw → IsBytes raw
  pub unmarshal-marshal : (m : Message) (raw : Bytes) → marshal m ≡ ok raw → unmarshal raw ≡ ok m

pub record PersistedEvent : Type 0 where
  pub partner : Bytes
  pub message : Message
  pub db_message_id : ℕ

module _ (T : Transactions DbError) (B : Buckets DbError) (N : Nested DbError B.Bucket B.empty)
    (V : Vault) (J : MessageJson) where
  -- The loop that looks for a free key: `tries` are left of its 1000. Each round after the first
  -- looks at the key one after the time of the message.
  unfoldable pub find_key : ℕ → ℕ → Bytes → B.Bucket → Bytes
  find_key zero created key b = key
  find_key (suc tries) created key b =
      let again = find_key tries created (put_uint64 ((created + 1) % 2 ^ 64)) b in
      elim (B.get key b) [ none ↦ key | some raw ↦ again ]

  unfoldable pub create_chats : Option N.Outer → N.Outer
  create_chats none = N.none_inside
  create_chats (some o) = o

  unfoldable pub bucket_or_empty : Option B.Bucket → B.Bucket
  bucket_or_empty none = B.empty
  bucket_or_empty (some b) = b

  -- The write of a message into the bucket of its partner.
  unfoldable pub store_message :
      Result AesError Bytes → Message → B.Bucket → Result DbError (Message × B.Bucket)
  store_message random msg b = do
    let key : Bytes = find_key 1000 msg.created_at (put_uint64 msg.created_at) b
    let stored : Message = record msg { database_id = uint64 key }
    raw ← map_err json (J.marshal stored)
    sealed ← seal V random raw
    c ← B.put key sealed b
    ok (stored, c)

  unfoldable pub store_in :
      Result AesError Bytes → Bytes → Message → N.Outer → Result DbError (PersistedEvent × N.Outer)
  unfolding store_message bucket_or_empty
  store_in random partner msg o = do
    p ← N.create_bucket partner o
    r ← store_message random msg (bucket_or_empty (N.bucket partner p))
    ok (
      record { partner = partner; message = r.0; db_message_id = r.0.database_id },
      N.write_bucket partner r.1 p,
    )

  unfoldable pub persist_update :
      Result AesError Bytes
      → Bytes
      → Message
      → Option N.Outer
      → Result DbError PersistedEvent × Option N.Outer
  unfolding store_in create_chats
  persist_update random partner msg s = elim (store_in random partner msg (create_chats s)) [
    | ok r ↦ (ok r.0, some r.1)
    | err e ↦ (err e, s)
  ]

  -- `persistMessage`, with the event that each listener is told after the commit.
  unfoldable pub persist_message :
      Result AesError Bytes
      → Bytes
      → Message
      → Option N.Outer
      → Result DbError PersistedEvent × Option N.Outer
  persist_message random partner msg s =
      let versioned = record msg { version = 1 } in
      elim (valid_message versioned) [
        | err e ↦ (err e, s)
        | ok u ↦
            T.update (Option N.Outer) PersistedEvent (persist_update random partner versioned) s
      ]

  unfoldable pub persist_received_message :
      Result AesError Bytes
      → Bytes
      → Message
      → Option N.Outer
      → Result DbError PersistedEvent × Option N.Outer
  persist_received_message random partner msg =
      persist_message random partner (record msg { status = status_persisted; received = true })

  -- `PersistMessageToSend`: `uuid` and `now` are what the packages uuid and time give.
  unfoldable pub persist_message_to_send :
      Result DbError Bytes
      → ℕ
      → KeyManager
      → Result AesError Bytes
      → Bytes
      → Message
      → Option N.Outer
      → Result DbError PersistedEvent × Option N.Outer
  persist_message_to_send uuid now km random partner msg s = elim uuid [
    | err e ↦ (err e, s)
    | ok id ↦ elim (identity_public_key km) [
      | err e ↦ (err (key_manager e), s)
      | ok text ↦
          let my_id_key = hex_prefix text in
          if nat_beq (length my_id_key) 32
          then persist_message random partner
              (record msg {
                id = id;
                received = false;
                status = status_persisted;
                sender = my_id_key;
                created_at = now;
              })
              s
          else (err not_32_bytes, s)
    ]
  ]

  unfoldable pub persist_dapp_message :
      Result DbError Bytes
      → ℕ
      → Result AesError Bytes
      → Bytes
      → DappMessage
      → Option N.Outer
      → Result DbError PersistedEvent × Option N.Outer
  persist_dapp_message uuid now random partner msg s = elim uuid [
    | err e ↦ (err e, s)
    | ok id ↦
        persist_message random partner
          (record {
            id = id;
            version = 0;
            status = status_persisted;
            received = false;
            dapp = some msg;
            message = [];
            created_at = now;
            sender = [];
            database_id = 0;
          })
          s
  ]

  -- Decryption and decoding of a stored message.
  unfoldable pub read_message : Bytes → Result DbError Message
  read_message raw = do plain ← unseal V raw; map_err json (J.unmarshal plain)

  unfoldable pub get_in : ℕ → B.Bucket → Result DbError (Option Message)
  unfolding read_message
  get_in db_id b = elim (B.get (put_uint64 db_id) b) [
    | none ↦ err not_found
    | some raw ↦ do m ← read_message raw; ok (some m)
  ]

  unfoldable pub get_in_chats : Bytes → ℕ → N.Outer → Result DbError (Option Message)
  unfolding get_in
  get_in_chats partner db_id o = elim (N.bucket partner o) [
    | none ↦ ok none
    | some b ↦ get_in db_id b
  ]

  -- `GetMessage`
  unfoldable pub get_message : Bytes → ℕ → Option N.Outer → Result DbError (Option Message)
  unfolding get_in_chats
  get_message partner db_id none = ok none
  get_message partner db_id (some o) = get_in_chats partner db_id o

  -- `AllChats`
  unfoldable pub keep_32 : List Bytes → List Bytes
  keep_32 [] = []
  keep_32 (k ∷ ks) = let rest = keep_32 ks in if nat_beq (length k) 32 then k ∷ rest else rest

  unfoldable pub all_chats : Option N.Outer → List Bytes
  unfolding keep_32
  all_chats none = []
  all_chats (some o) = keep_32 (N.bucket_names o)
