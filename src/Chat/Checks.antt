-- ===== src/Chat/Checks.antt =====
-- chat/receive_message.go: the checks of a received message and its decryption, which leave the
-- state as it is.
use panthalassa.Base.{
  true, not, Option, none, some, List, [], ◌∷◌, Bytes, length, nat_beq, bytes_beq, hex_encode,
  hex_decode, Result, ok, err, ◌>>=◌, ◌>>◌, guard, map_err, if◌then◌else◌,
}
use panthalassa.KeyManager.{KeyManager, identity_public_key, hex}
use panthalassa.Identity.{Signing, zero_key, ed25519_verify}
use panthalassa.Db.OneTimePreKeys.{KeyPair}
use panthalassa.Db.SharedSecrets.{SharedSecret}
use panthalassa.Chat.{
  ChatMessage, RatchetMessage, PlainChatMessage, ChatError, Protocols, own_message, short_sender,
  invalid_ratchet_key, chat_panic, invalid_ephemeral_signature, invalid_chat_id_signature,
  invalid_signed_pre_key, invalid_used_secret, invalid_x3dh_key, unknown_secret, no_signed_pre_key,
  key_manager, identity, foreign,
}

-- `byteSliceTox3dhPub`
unfoldable pub byte_slice_to_x3dh_pub : Bytes → Result ChatError Bytes
byte_slice_to_x3dh_pub key = if nat_beq (length key) 32 then ok key else err invalid_x3dh_key

unfoldable pub ratchet_message : ChatMessage → Result ChatError RatchetMessage
ratchet_message m = elim m.message [ none ↦ err chat_panic | some r ↦ ok r ]

-- The secret of a first message, in accepted mode; the fields that are not set are zero values.
unfoldable pub accepted_secret : Bytes → Bytes → PlainChatMessage → SharedSecret
accepted_secret secret id plain = record {
  x3dh_ss = secret;
  accepted = true;
  created_at = record { unix = plain.shared_secret_creation_date; nanos = 0 };
  destroy_at = none;
  ephemeral_key = zero_key;
  ephemeral_key_signature = [];
  used_signed_pre_key = zero_key;
  used_one_time_pre_key = none;
  base_id = plain.shared_secret_base_id;
  id = id;
  id_init_params = [];
}

unfoldable pub found_secret : Option SharedSecret → Result ChatError SharedSecret
found_secret none = err unknown_secret
found_secret (some ss) = ok ss

unfoldable pub x3dh_key : Bytes → ChatError → Result ChatError Bytes
unfolding byte_slice_to_x3dh_pub
x3dh_key bytes zero = do
  key ← byte_slice_to_x3dh_pub bytes
  guard (not (bytes_beq key zero_key)) zero
  ok key

module _ (S : Signing) (km : KeyManager) where
  -- `ed25519.Verify` with the sender's key, as a check.
  unfoldable pub signed_by : Bytes → Bytes → Bytes → ChatError → Result ChatError (Unit {0})
  unfolding ed25519_verify
  signed_by sender text signature e = do
    valid ← (map_err identity (ed25519_verify S sender text signature))
    guard valid e

  -- The checks of every message: the ratchet message and our own key.
  unfoldable pub authenticate : ChatMessage → Result ChatError (RatchetMessage × Bytes)
  unfolding ratchet_message
  authenticate m = do
    text ← (map_err key_manager (identity_public_key km))
    guard (not (bytes_beq text (hex_encode m.sender))) own_message
    guard (nat_beq (length m.sender) 32) short_sender
    ratchet ← ratchet_message m
    guard (nat_beq (length ratchet.double_ratchet_pk) 32) invalid_ratchet_key
    our_key ← (map_err (λ e. key_manager (hex e)) (hex_decode text))
    ok (ratchet, our_key)

  -- The checks of a chat initialization.
  unfoldable pub authenticate_init : ChatMessage → Bytes → Bytes → Result ChatError (Unit {0})
  unfolding signed_by
  authenticate_init m ephemeral_key signed_pre_key = do
    signed_by m.sender ephemeral_key m.ephemeral_key_signature invalid_ephemeral_signature
    signed_by m.sender m.sender_chat_id_key m.sender_chat_id_key_signature invalid_chat_id_signature
    guard (nat_beq (length signed_pre_key) 32) invalid_signed_pre_key
    guard (nat_beq (length m.used_shared_secret) 32) invalid_used_secret

module _ (P : Protocols) where
  -- The function `decrypt` within `decryptMessage`.
  unfoldable pub decrypt_with : RatchetMessage → Bytes → KeyPair → Result ChatError PlainChatMessage
  decrypt_with msg secret pair = do
    raw ← map_err foreign (P.ratchet_decrypt secret pair msg)
    map_err foreign (P.unmarshal_plain raw)

  -- `decryptMessage` without a signed pre key: the loop returns in its first round.
  unfoldable pub decrypt_with_first :
      RatchetMessage → Bytes → List KeyPair → Result ChatError PlainChatMessage
  unfolding decrypt_with
  decrypt_with_first msg secret [] = err no_signed_pre_key
  decrypt_with_first msg secret (pair ∷ pairs) = decrypt_with msg secret pair
