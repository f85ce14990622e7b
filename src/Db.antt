-- ===== src/Db.antt =====
-- db: the storages that the chat keeps in the database, and the encryption they share.
pub mod Vault
pub mod OneTimePreKeys
pub mod Message
pub mod ChatMessages
pub mod PreKeys
pub mod RatchetKeys
pub mod SharedSecrets
pub mod SignedPreKeys
pub mod Users
pub mod Migration
pub mod Open
