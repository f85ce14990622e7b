-- ===== src/Chat/Send.antt =====
-- chat/send_message.go with `refreshSignedPreKey` of chat/utils.go: the encryption of a message of
-- the database and its way to the backend. `UpdateStatus` does nothing yet and returns no error, so
-- `handleSendError` gives back the error it is given.
pub mod Submitted
use panthalassa.Base.{
  ℕ, false, not, Option, none, some, [], Bytes, length, nat_beq, hex_decode, Result, ok, err,
  map_err, if◌then◌else◌,
}
use panthalassa.KeyManager.{KeyManager, identity_public_key, identity_sign, chat_id_key_pair, hex}
use panthalassa.Identity.{Signing}
use panthalassa.Identity.PreKey.{PreKey, verify_signature, older_than}
use panthalassa.Db.Vault.{DbError}
use panthalassa.Db.Message.{Message, valid_message}
use panthalassa.Db.SharedSecrets.{SharedSecret}
use panthalassa.Chat.{
  ChatMessage, RatchetMessage, PlainChatMessage, ChatError, invalid_base_id, no_youngest_secret,
  pre_key_signature, pre_key_expired, chat_panic, db, key_manager, identity, foreign,
}
use panthalassa.Chat.Outgoing.{
  InitializedProtocol, Outgoing, plain_of, attach_secret, valid_x3dh_pub, valid_optional_pub,
}
use panthalassa.Chat.Actions.{Action, ◌>>=◌, ◌>>◌, lift, check}

module _ (S : Signing) (O : Outgoing) (km : KeyManager) where
  abbrev pub on_state : {A : Type 0} → (O.State → Result DbError A × O.State) → Action O.State A
  on_state f s = (map_err db (f s).0, (f s).1)

  abbrev pub on_backend : {A : Type 0} → (O.State → Result ℕ A × O.State) → Action O.State A
  on_backend f s = (map_err foreign (f s).0, (f s).1)

  abbrev pub reading : {A : Type 0} → (O.State → Result DbError A) → Action O.State A
  reading f s = (map_err db (f s), s)

  unfoldable pub sender_key : Result ChatError Bytes
  sender_key = elim (identity_public_key km) [
    | err e ↦ err (key_manager e)
    | ok text ↦ map_err (λ e. key_manager (hex e)) (hex_decode text)
  ]

  unfoldable pub new_secret : Bytes → Bytes → Bytes → InitializedProtocol → SharedSecret
  new_secret id base_id signature p = record {
    x3dh_ss = p.shared_secret;
    accepted = false;
    created_at = O.now;
    destroy_at = none;
    ephemeral_key = p.ephemeral_key;
    ephemeral_key_signature = signature;
    used_signed_pre_key = p.used_signed_pre_key;
    used_one_time_pre_key = p.used_one_time_pre_key;
    base_id = base_id;
    id = id;
    id_init_params = [];
  }

  -- The key agreement with a partner with whom there is no secret.
  unfoldable pub agree : Bytes → Bytes → Action O.State (Unit {0})
  unfolding new_secret
  agree sender receiver = do
    p ← on_backend (O.calculate_secret receiver)
    signature ← lift (map_err key_manager (identity_sign S.sign km p.ephemeral_key))
    base_id ← lift (map_err foreign O.random_base_id)
    id ← lift (O.multihash sender receiver base_id)
    on_state (O.put_secret receiver (new_secret id base_id signature p))

  unfoldable pub ensure_secret : Bytes → Bytes → Action O.State (Unit {0})
  unfolding agree
  ensure_secret sender receiver = do
    exist ← reading (O.has_any receiver)
    if exist then lift (ok tt) else agree sender receiver

  -- `refreshSignedPreKey`
  unfoldable pub refresh_signed_pre_key : Bytes → Action O.State (Unit {0})
  refresh_signed_pre_key user = do
    key ← on_backend (O.fetch_signed_pre_key user)
    valid ← lift (map_err identity (verify_signature S key user))
    check valid pre_key_signature
    check (not (older_than O.truncated_now key)) pre_key_expired
    on_state (O.put_signed_pre_key user key)

  -- The function `fetchSignedPreKey`; the method of a missing key panics.
  unfoldable pub fetch_signed_pre_key : Bytes → Action O.State PreKey
  fetch_signed_pre_key user = do
    found ← reading (O.get_signed_pre_key user)
    key ← lift (elim found [ none ↦ err chat_panic | some k ↦ ok k ])
    valid ← lift (map_err identity (verify_signature S key user))
    check valid pre_key_signature
    lift (ok key)

  unfoldable pub refresh_expired : Bytes → PreKey → Action O.State PreKey
  unfolding refresh_signed_pre_key fetch_signed_pre_key
  refresh_expired user key =
      if older_than O.truncated_now key
      then (refresh_signed_pre_key user >> fetch_signed_pre_key user)
      else lift (ok key)

  unfoldable pub refresh_missing : Bytes → Option PreKey → Action O.State (Unit {0})
  unfolding refresh_signed_pre_key
  refresh_missing user none = refresh_signed_pre_key user
  refresh_missing user (some key) = lift (ok tt)

  -- The signed pre key of the partner, fetched where it is missing and again where it expired.
  unfoldable pub signed_pre_key_for : Bytes → Action O.State PreKey
  unfolding refresh_missing fetch_signed_pre_key refresh_expired
  signed_pre_key_for user = do
    stored ← reading (O.get_signed_pre_key user)
    refresh_missing user stored
    key ← fetch_signed_pre_key user
    refresh_expired user key

  unfoldable pub message_for : Bytes → Bytes → Message → SharedSecret → RatchetMessage → ChatMessage
  message_for sender receiver m ss ratchet = record {
    message_id = m.id;
    receiver = receiver;
    sender = sender;
    message = some ratchet;
    one_time_pre_key = [];
    signed_pre_key = none;
    ephemeral_key = none;
    ephemeral_key_signature = [];
    sender_chat_id_key = [];
    sender_chat_id_key_signature = [];
    used_shared_secret = ss.base_id;
  }

  -- What lets the partner derive the secret.
  unfoldable pub attach_keys : SharedSecret → ChatMessage → Action O.State ChatMessage
  unfolding valid_optional_pub valid_x3dh_pub
  attach_keys ss m = do
    lift (valid_optional_pub ss.used_one_time_pre_key)
    lift (valid_x3dh_pub ss.used_signed_pre_key)
    lift (valid_x3dh_pub ss.ephemeral_key)
    pair ← lift (map_err key_manager (chat_id_key_pair O.past_key_end km))
    signature ← lift (map_err key_manager (identity_sign S.sign km pair.1))
    lift (
        ok (record m {
          one_time_pre_key = elim ss.used_one_time_pre_key [ none ↦ [] | some key ↦ key ];
          signed_pre_key = some ss.used_signed_pre_key;
          sender_chat_id_key = pair.1;
          sender_chat_id_key_signature = signature;
          ephemeral_key = some ss.ephemeral_key;
          ephemeral_key_signature = ss.ephemeral_key_signature;
        }))

  unfoldable pub with_keys : SharedSecret → ChatMessage → Action O.State ChatMessage
  unfolding attach_keys
  with_keys ss m = if ss.accepted then lift (ok m) else attach_keys ss m

  unfoldable pub encrypt :
      SharedSecret → PreKey → PlainChatMessage → Result ChatError RatchetMessage
  encrypt ss key plain = elim (O.marshal_plain plain) [
    | err e ↦ err (foreign e)
    | ok raw ↦ map_err foreign (O.ratchet_encrypt ss.x3dh_ss key.public_key raw)
  ]

  -- The message for a secret and a signed pre key.
  unfoldable pub assemble :
      Bytes → Bytes → Message → SharedSecret → PreKey → Action O.State ChatMessage
  unfolding plain_of attach_secret message_for with_keys encrypt
  assemble sender receiver m ss key = do
    plain ← lift (attach_secret ss (plain_of m))
    ratchet ← lift (encrypt ss key plain)
    complete ← with_keys ss (message_for sender receiver m ss ratchet)
    check (nat_beq (length ss.base_id) 32) invalid_base_id
    lift (ok complete)

  unfoldable pub youngest_secret : Bytes → Action O.State SharedSecret
  youngest_secret receiver = do
    found ← reading (O.get_youngest receiver)
    lift (elim found [ none ↦ err no_youngest_secret | some ss ↦ ok ss ])

  -- The message that is submitted.
  unfoldable pub build_message : Bytes → Message → Action O.State ChatMessage
  unfolding sender_key ensure_secret youngest_secret signed_pre_key_for assemble
  build_message receiver m = do
    lift (map_err db (valid_message m))
    sender ← lift sender_key
    ensure_secret sender receiver
    ss ← youngest_secret receiver
    key ← signed_pre_key_for receiver
    assemble sender receiver m ss key

  -- `SendMessage`
  unfoldable pub send_message : Bytes → Message → Action O.State (Unit {0})
  unfolding build_message
  send_message receiver m = do
    message ← build_message receiver m
    on_backend (O.submit_message message)
