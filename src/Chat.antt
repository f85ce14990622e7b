-- ===== src/Chat.antt =====
-- chat: the messages that are exchanged with a partner. What the chat uses of the storages, of the
-- packages x3dh and doubleratchet and of the encodings is a parameter; a run time panic is the error
-- `chat_panic`. A bytes field that the code compares with nil is an `Option`.
pub mod Actions
pub mod Storages
pub mod Plain
pub mod Checks
pub mod Receive
pub mod Persistent
pub mod NewPreKeys
pub mod Outgoing
pub mod Send
pub mod Jobs
use panthalassa.Base.{ℕ, Option, Bytes, Result}
use panthalassa.KeyManager.{KeyManagerError}
use panthalassa.Identity.{IdentityError}
use panthalassa.Db.Vault.{DbError}
use panthalassa.Db.OneTimePreKeys.{KeyPair}

-- `DoubleRatchetMsg` of the protobuf package, and `dr.Message`.
pub record RatchetMessage : Type 0 where
  pub double_ratchet_pk : Bytes
  pub n : ℕ
  pub pn : ℕ
  pub cipher_text : Bytes

pub record ChatMessage : Type 0 where
  pub message_id : Bytes
  pub receiver : Bytes
  pub sender : Bytes
  pub message : Option RatchetMessage
  pub one_time_pre_key : Bytes
  pub signed_pre_key : Option Bytes
  pub ephemeral_key : Option Bytes
  pub ephemeral_key_signature : Bytes
  pub sender_chat_id_key : Bytes
  pub sender_chat_id_key_signature : Bytes
  pub used_shared_secret : Bytes

pub record PlainChatMessage : Type 0 where
  pub message_id : Bytes
  pub message : Bytes
  pub created_at : ℕ
  pub version : ℕ
  pub dapp_public_key : Bytes
  pub type : Bytes
  pub params : Option Bytes
  pub shared_secret_base_id : Bytes
  pub shared_secret_creation_date : ℕ

pub data ChatError : Type 0 where
  own_message short_sender invalid_ratchet_key chat_panic : ChatError
  invalid_ephemeral_signature invalid_chat_id_signature invalid_signed_pre_key : ChatError
  invalid_used_secret invalid_x3dh_key zero_ephemeral_key zero_chat_id_key : ChatError
  invalid_base_id invalid_creation_date no_used_secret unknown_secret no_signed_pre_key : ChatError
  no_youngest_secret pre_key_signature pre_key_expired zero_x3dh_key : ChatError
  too_many_pre_keys persist_failed sign_failed : ChatError
  invalid_job_type missing_message_id missing_partner invalid_value : ChatError
  zero_message_id invalid_partner missing_message : ChatError
  db : DbError → ChatError
  key_manager : KeyManagerError → ChatError
  identity : IdentityError → ChatError
  foreign : ℕ → ChatError

-- The arguments of `SecretFromRemote`.
pub record ProtocolInitialisation : Type 0 where
  pub remote_id_key : Bytes
  pub remote_ephemeral_key : Bytes
  pub my_one_time_pre_key : Option Bytes
  pub my_signed_pre_key : Bytes

-- x3dh with the account's own key, a session of the double ratchet that is made for one message, with
-- its keys in memory or in the storage of message keys, the protobuf encoding of a plain message, and
-- the JSON text of the parameters of a DApp message.
pub record Protocols : Type 1 where
  pub RatchetKeys : Type 0
  pub secret_from_remote : ProtocolInitialisation → Result ℕ Bytes
  pub ratchet_decrypt : Bytes → KeyPair → RatchetMessage → Result ℕ Bytes
  pub ratchet_decrypt_stored :
      Bytes → KeyPair → RatchetMessage → RatchetKeys → Result ℕ Bytes × RatchetKeys
  pub unmarshal_plain : Bytes → Result ℕ PlainChatMessage
  pub params_text : Bytes → Result ℕ Bytes
