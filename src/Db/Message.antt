-- ===== src/Db/Message.antt =====
-- db/chat_message_storage.go: the messages that are stored, and what makes one valid. An `int64` is its
-- pattern of 64 bits; a text is the list of its bytes.
use panthalassa.Base.{
  ℕ, ◌^◌, Bool, true, false, not, ◌||◌, Option, none, some, Bytes, length, leb, nat_beq, Result,
  ◌>>◌, guard,
}
use panthalassa.Db.Vault.{DbError, invalid_message}

-- The statuses that are registered: sent, failed to send, delivered, failed to handle, persisted.
abbrev pub status_persisted : ℕ
status_persisted = 500

unfoldable pub is_status : ℕ → Bool
is_status s = nat_beq s 100 || nat_beq s 200 || nat_beq s 300 || nat_beq s 400 || nat_beq s 500

-- The `Params` are kept as the text that they are stored as.
pub record DappMessage : Type 0 where
  pub dapp_public_key : Bytes
  pub type : Bytes
  pub params : Bytes
  pub should_send : Bool

pub record Message : Type 0 where
  pub id : Bytes
  pub version : ℕ
  pub status : ℕ
  pub received : Bool
  pub dapp : Option DappMessage
  pub message : Bytes
  pub created_at : ℕ
  pub sender : Bytes
  pub database_id : ℕ

-- `n <= 2147483647` on an `int64`: the patterns from 2^63 on are negative.
unfoldable pub is_early : ℕ → Bool
is_early n = leb n 2147483647 || leb (2 ^ 63) n

unfoldable pub valid_dapp : Option DappMessage → Bool
valid_dapp none = true
valid_dapp (some d) = nat_beq (length d.dapp_public_key) 32

unfoldable pub is_dapp : Option DappMessage → Bool
is_dapp none = false
is_dapp (some d) = true

-- `ValidMessage`
unfoldable pub valid_message : Message → Result DbError (Unit {0})
unfolding is_status is_early valid_dapp is_dapp
valid_message m = do
  guard (not (nat_beq (length m.id) 0)) invalid_message
  guard (not (nat_beq m.version 0)) invalid_message
  guard (is_status m.status) invalid_message
  guard (is_dapp m.dapp || not (nat_beq (length m.message) 0)) invalid_message
  guard (valid_dapp m.dapp) invalid_message
  guard (not (is_early m.created_at)) invalid_message
  guard (nat_beq (length m.sender) 32 || is_dapp m.dapp) invalid_message
