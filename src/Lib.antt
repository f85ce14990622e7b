-- ===== src/Lib.antt =====
-- A model of panthalassa, the core of a mobile wallet and messenger: it keeps the keys of an account,
-- encrypts what it stores, chats with other accounts and runs DApps. Paths are those of the
-- repository. A Go function keeps its name, in lower case and with underscores.
--
-- The parts and how they interact:
-- - Bip32 (bip32/bip32.go): hardened child keys along a path. Its client is the ethereum migration.
-- - Crypto.Aes and Crypto.Scrypt (crypto/aes, crypto/scrypt): authenticated encryption with a key
--   and with a password. A cipher is a key stream, a MAC is a function of key and text: both are
--   parameters, the record Ciphers. Random bytes are arguments, as the result of reading them.
-- - KeyStore.Migrations (keyStore/migration, mnemonic/mnemonic.go) and KeyStore (keyStore/main.go):
--   the keys that are derived from the mnemonic, in a map from names to hexadecimal texts.
-- - KeyManager (keyManager/keyManager.go): the account, a key store encrypted with a password beside
--   the password encrypted with the mnemonic.
-- - Bolt: what the storages use of bbolt, as records of operations and laws. Tests.Models gives
--   functions that satisfy them. Each storage is a function of the state of its top bucket.
-- - Db.Vault: sealing and unsealing of stored values. Db.Vault.Account gives the vault of an opened
--   key manager, so that the storages' theorems hold for the AES functions of crypto/aes.
-- - Db.OneTimePreKeys, Db.PreKeys, Db.Message, Db.ChatMessages and Db.RatchetKeys
--   (db/one_time_pre_key_storage.go, db/pre_key_storage.go, db/chat_message_storage.go,
--   db/dr_key_storage.go): storages over Bolt and Db.Vault.
-- - Queue (queue/queue.go): the job queue. Its worker goroutines and the calls of `AddJob` are steps
--   of a relation on the state of the queue, which interleaves them in any order. Queue.Stored
--   (queue/bolt_queue_storage.go) is the storage that the program gives it.
-- - Limits (dapp/request_limitation): Count as a relation of interleaved goroutines, and
--   CountThrottling and Throttling as lists of events, one event for each step of a goroutine.
-- - Callbacks (dapp/module/callbacks/module.go): the goroutine that owns the functions which a DApp
--   registers.
-- - Db.SignedPreKeys, Db.SharedSecrets and Db.Users (db/signed_pre_key_storage.go,
--   db/shared_secret_storage.go, db/user_storage.go): the storages of the chat protocol. Bolt.Within
--   has what they share: values in a bucket of each partner.
-- - Identity.PreKey, Identity.Profile and Identity.Bundle (chat/prekey/key.go, profile/profile.go,
--   backend/pre_key_bundle.go): what an account signs and what it checks of others. The signature
--   schemes and hashes are the record Signing.
-- - Chat (chat/receive_message.go, chat/send_message.go, chat/utils.go, chat/handler.go,
--   chat/queue_processor.go): a message that is received or sent is a sequence of steps, in the
--   sense of Chat.Actions, that keep the state when they fail. Chat.Storages is the interface to the
--   storages with its laws, which Chat.Persistent fills with those over bbolt; x3dh and the double
--   ratchet are parameters. Chat.Jobs has the jobs of the queue that messages to be sent become, and
--   the processor of these jobs.
-- - Backend (backend/backend.go, backend/request.go): the stack of waiting requests, and one round
--   of the loop that reads messages; a handler is a function with a state, as those of Chat are.
--   Backend.Client (backend/chat.go, backend/backend.go): what the chat fetches, and the upload of
--   the signed pre key.
-- - Db.Migration and Db.Open (db/migration/migration.go, db/db.go): the migrations of the database
--   file and the backup that a failed one is undone with, over the files as a map.
-- - Dapp.Data and Dapp.Storage (dapp/dapp_representation.go, dapp/dapp_storage.go): published DApps,
--   what their signatures cover, and where they are kept. Dapp.Registry (dapp/registry,
--   dapp/dapp.go) is the goroutine that keeps the running ones; a start of a DApp is a function that
--   gives the message which is sent to it.
-- - Dapp.Validator (dapp/validator) and Dapp.Database (dapp/module/db): what a DApp passes to the
--   functions of the VM, and its own values. The VM is the record Otto. Dapp.Message
--   (dapp/module/message) stores messages of a DApp in Db.ChatMessages, and Dapp.Modal
--   (dapp/module/modal) has the goroutine that keeps its modals; both give their jobs to
--   Limits.CountThrottling.
-- - Api (api/api.go, api/dapp.go): requests to the app, as steps of the goroutines that ask and
--   answer.
-- - Dyncall (dyncall): the registry of calls by name.
-- - Base: octets, hexadecimal and big endian texts, association lists for Go's maps, results. Tests:
--   the concrete functions for the parameters, and runs.
--
-- Numbers are natural numbers. A `uint` of 64 bits and a `uint32` wrap around where the code adds
-- to them (`word`, `% 2 ^ 32`), a decrement is written with the code's test; an `int64` is its
-- pattern of 64 bits. The loop of `persistMessage` that looks for a free key has the 1000 tries of
-- the code as its fuel: every run of it ends. The loop of `PutVarint` has the ten bytes of its
-- buffer as fuel, which are enough, and that of `Migrate` one round more than there are
-- migrations. Every other loop goes over a list or counts down. A run time panic is an error of
-- the model, named as a panic.
--
-- Not modelled: the curves, scrypt, HMAC, AES, JSON, protobuf, bbolt, x3dh, the double ratchet and the
-- clock are parameters, as they are not the repository's code. A failing disk, `Close` of the queue
-- and of Count, the goroutines in which `messagesHandler` handles several messages at once, the
-- websocket, the VM and its other modules, the network and the glue to the mobile app are left out.
-- `Exec` and each message to a state goroutine are one step each.
mod Base
pub mod Api
pub mod Bip32
pub mod Bolt
pub mod Callbacks
pub mod Crypto
pub mod Db
pub mod Identity
pub mod Chat
pub mod Dapp
pub mod Dyncall
pub mod Backend
pub mod KeyManager
pub mod KeyStore
pub mod Limits
pub mod Queue
mod Tests
