-- ===== src/Chat/Outgoing.antt =====
-- chat/send_message.go: what a message is sent with, and its plain form.
use panthalassa.Base.{
  ℕ, Bool, not, Option, none, some, [], Bytes, length, nat_beq, bytes_beq, Result, ok, err, guard,
  if◌then◌else◌,
}
use panthalassa.KeyManager.{KeyManagerError}
use panthalassa.Identity.{Time, zero_key}
use panthalassa.Identity.PreKey.{PreKey}
use panthalassa.Db.Vault.{DbError}
use panthalassa.Db.Message.{Message}
use panthalassa.Db.SharedSecrets.{SharedSecret}
use panthalassa.Chat.{
  ChatMessage, RatchetMessage, PlainChatMessage, ChatError, invalid_base_id, zero_x3dh_key,
}

-- What `CalculateSecret` of x3dh gives.
pub record InitializedProtocol : Type 0 where
  pub shared_secret : Bytes
  pub used_one_time_pre_key : Option Bytes
  pub used_signed_pre_key : Bytes
  pub ephemeral_key : Bytes

-- What a message is sent with: the shared secrets, the signed pre keys of the users, the backend, with
-- the key agreement of x3dh, the double ratchet, the encodings, the clock and the random bytes.
pub record Outgoing : Type 1 where
  pub State : Type 0
  pub has_any : Bytes → State → Result DbError Bool
  pub put_secret : Bytes → SharedSecret → State → Result DbError (Unit {0}) × State
  pub get_youngest : Bytes → State → Result DbError (Option SharedSecret)
  pub get_signed_pre_key : Bytes → State → Result DbError (Option PreKey)
  pub put_signed_pre_key : Bytes → PreKey → State → Result DbError (Unit {0}) × State
  pub calculate_secret : Bytes → State → Result ℕ InitializedProtocol × State
  pub fetch_signed_pre_key : Bytes → State → Result ℕ PreKey × State
  pub submit_message : ChatMessage → State → Result ℕ (Unit {0}) × State
  pub ratchet_encrypt : Bytes → Bytes → Bytes → Result ℕ RatchetMessage
  pub marshal_plain : PlainChatMessage → Result ℕ Bytes
  pub multihash : Bytes → Bytes → Bytes → Result ChatError Bytes
  pub now : Time
  pub truncated_now : Time
  pub random_base_id : Result ℕ Bytes
  pub past_key_end : Bytes → Result KeyManagerError Bytes

-- The plain message of a message of the database.
unfoldable pub plain_of : Message → PlainChatMessage
plain_of m = record {
  message_id = m.id;
  message = elim m.dapp [ none ↦ m.message | some d ↦ [] ];
  created_at = m.created_at;
  version = 1;
  dapp_public_key = elim m.dapp [ none ↦ [] | some d ↦ d.dapp_public_key ];
  type = elim m.dapp [ none ↦ [] | some d ↦ d.type ];
  params = elim m.dapp [ none ↦ none | some d ↦ some d.params ];
  shared_secret_base_id = [];
  shared_secret_creation_date = 0;
}

-- The base id and the creation date go with a message while its secret has not been accepted.
unfoldable pub attach_secret : SharedSecret → PlainChatMessage → Result ChatError PlainChatMessage
attach_secret ss plain =
    if ss.accepted
    then ok plain
    else if nat_beq (length ss.base_id) 32
    then ok (record plain {
      shared_secret_base_id = ss.base_id;
      shared_secret_creation_date = ss.created_at.unix;
    })
    else err invalid_base_id

unfoldable pub valid_x3dh_pub : Bytes → Result ChatError (Unit {0})
valid_x3dh_pub key = guard (not (bytes_beq key zero_key)) zero_x3dh_key

unfoldable pub valid_optional_pub : Option Bytes → Result ChatError (Unit {0})
unfolding valid_x3dh_pub
valid_optional_pub none = ok tt
valid_optional_pub (some key) = valid_x3dh_pub key
