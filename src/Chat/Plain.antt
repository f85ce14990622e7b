-- ===== src/Chat/Plain.antt =====
-- chat/utils.go: the identification of a shared secret, and a received plain message as a message of
-- the database.
use panthalassa.Base.{
  Bool, false, not, Option, none, some, [], ◌∷◌, ◌++◌, Bytes, length, nat_beq, Result, ok, ◌>>=◌,
  map_err, if◌then◌else◌,
}
use panthalassa.Identity.{Signing}
use panthalassa.Db.Message.{Message, DappMessage}
use panthalassa.Chat.{ChatError, PlainChatMessage, Protocols, foreign}

unfoldable pub is_dapp_message : PlainChatMessage → Bool
is_dapp_message m = not (nat_beq (length m.dapp_public_key) 0)

-- The message without what only a DApp message has.
unfoldable pub plain_db_message : PlainChatMessage → Message
plain_db_message m = record {
  id = m.message_id;
  version = 0;
  status = 0;
  received = false;
  dapp = none;
  message = m.message;
  created_at = m.created_at;
  sender = [];
  database_id = 0;
}

-- "{}"
abbrev no_params : Bytes
no_params = b'{' ∷ b'}' ∷ []

module _ (S : Signing) (P : Protocols) where
  unfoldable pub shared_secret_id : Bytes → Bytes → Bytes → Result ChatError Bytes
  shared_secret_id sender receiver id =
      map_err foreign (S.sha3_multihash ((sender ++ receiver) ++ id))

  unfoldable pub read_params : Option Bytes → Result ChatError Bytes
  read_params none = ok no_params
  read_params (some text) = map_err foreign (P.params_text text)

  -- `protoPlainMsgToMessage`
  unfoldable pub proto_plain_msg_to_message : PlainChatMessage → Result ChatError Message
  unfolding is_dapp_message plain_db_message read_params
  proto_plain_msg_to_message m =
      if is_dapp_message m
      then (do
        params ← read_params m.params
        let dapp : DappMessage = record {
          dapp_public_key = m.dapp_public_key;
          type = m.type;
          params = params;
          should_send = false;
        }
        ok (record (plain_db_message m) { dapp = some dapp; message = [] }))
      else ok (plain_db_message m)
