-- ===== src/Chat/Receive.antt =====
-- chat/receive_message.go: the handling of a message that the backend delivered.
pub mod Authentic
pub mod First
pub mod Replay
use panthalassa.Base.{
  true, not, Option, none, some, Bytes, length, nat_beq, ok, map_err, if◌then◌else◌,
}
use panthalassa.KeyManager.{KeyManager}
use panthalassa.Identity.{Signing}
use panthalassa.Db.OneTimePreKeys.{KeyPair}
use panthalassa.Db.SharedSecrets.{SharedSecret}
use panthalassa.Chat.{
  ChatMessage, RatchetMessage, PlainChatMessage, Protocols, zero_ephemeral_key, zero_chat_id_key,
  invalid_base_id, invalid_creation_date, no_used_secret, db, foreign,
}
use panthalassa.Chat.Actions.{Action, ◌>>=◌, ◌>>◌, lift, check}
use panthalassa.Chat.Storages.{
  Storages, Random, State, on_one_time_keys, on_secrets, on_messages, reading,
}
use panthalassa.Chat.Checks.{
  authenticate, authenticate_init, decrypt_with, decrypt_with_first, x3dh_key, accepted_secret,
  found_secret,
}
use panthalassa.Chat.Plain.{shared_secret_id, proto_plain_msg_to_message}

module _ (S : Signing) (X : Storages) (P : Protocols) (km : KeyManager) where
  -- Conversion and storage of a decrypted message.
  unfoldable pub persist_plain : Random X → Bytes → PlainChatMessage → Action (State X P) (Unit {0})
  persist_plain random sender plain = do
    message ← lift (proto_plain_msg_to_message S P plain)
    on_messages X P
        (X.persist_received random.for_message sender (record message { sender = sender }))

  -- A chat initialization whose secret is known.
  unfoldable pub receive_known :
      Random X
      → ChatMessage
      → RatchetMessage
      → KeyPair
      → SharedSecret
      → Action (State X P) (Unit {0})
  unfolding decrypt_with persist_plain
  receive_known random m ratchet pair ss = do
    plain ← lift (decrypt_with P ratchet ss.x3dh_ss pair)
    persist_plain random m.sender plain

  -- `RatchetDecrypt` of a session that keeps its message keys in the storage.
  unfoldable pub decrypt_stored : Bytes → KeyPair → RatchetMessage → Action (State X P) Bytes
  decrypt_stored secret pair ratchet s =
      let r = P.ratchet_decrypt_stored secret pair ratchet s.ratchet_keys in
      (map_err foreign r.0, record s { ratchet_keys = r.1 })

  -- What is done with the plain text of a first message.
  unfoldable pub store_first :
      Random X → Bytes → Bytes → Bytes → Bytes → Action (State X P) (Unit {0})
  unfolding accepted_secret persist_plain
  store_first random sender our_key secret raw = do
    plain ← lift (map_err foreign (P.unmarshal_plain raw))
    check (nat_beq (length plain.shared_secret_base_id) 32) invalid_base_id
    id ← lift (shared_secret_id S P sender our_key plain.shared_secret_base_id)
    check (not (nat_beq plain.shared_secret_creation_date 0)) invalid_creation_date
    on_secrets X P (X.put_secret random.for_secret sender (accepted_secret secret id plain))
    persist_plain random sender plain

  -- A chat initialization whose secret is derived from the keys.
  unfoldable pub receive_first :
      Random X
      → ChatMessage
      → RatchetMessage
      → Bytes
      → Bytes
      → KeyPair
      → Action (State X P) (Unit {0})
  unfolding x3dh_key decrypt_stored store_first
  receive_first random m ratchet our_key ephemeral_key pair = do
    one_time ← on_one_time_keys X P (X.cut m.one_time_pre_key)
    ephemeral ← lift (x3dh_key ephemeral_key zero_ephemeral_key)
    chat_id ← lift (x3dh_key m.sender_chat_id_key zero_chat_id_key)
    secret ← lift (
        map_err foreign (
          P.secret_from_remote (record {
            remote_id_key = chat_id;
            remote_ephemeral_key = ephemeral;
            my_one_time_pre_key = one_time;
            my_signed_pre_key = pair.private_key;
          })))
    raw ← decrypt_stored secret pair ratchet
    store_first random m.sender our_key secret raw

  unfoldable pub receive_init :
      Random X
      → ChatMessage
      → RatchetMessage
      → Bytes
      → Bytes
      → Bytes
      → Action (State X P) (Unit {0})
  unfolding authenticate_init receive_known receive_first
  receive_init random m ratchet our_key ephemeral_key signed_pre_key = do
    lift (authenticate_init S km m ephemeral_key signed_pre_key)
    private ← reading X P (λ s. map_err db (X.get_signed_pre_key signed_pre_key s.signed_keys))
    let pair : KeyPair = record { public_key = signed_pre_key; private_key = private }
    found ← reading X P (λ s. map_err db (X.get_secret m.sender m.used_shared_secret s.secrets))
    elim found [
      | some ss ↦ receive_known random m ratchet pair ss
      | none ↦ receive_first random m ratchet our_key ephemeral_key pair
    ]

  -- `Accept`, where the secret has not been accepted.
  unfoldable pub accept_secret : Random X → Bytes → SharedSecret → Action (State X P) (Unit {0})
  accept_secret random sender ss =
      if ss.accepted
      then lift (ok tt)
      else on_secrets X P (X.put_secret random.for_secret sender (record ss { accepted = true }))

  unfoldable pub receive_later :
      Random X → ChatMessage → RatchetMessage → Action (State X P) (Unit {0})
  unfolding found_secret accept_secret decrypt_with_first persist_plain
  receive_later random m ratchet = do
    check (not (nat_beq (length m.used_shared_secret) 0)) no_used_secret
    found ← reading X P (λ s. map_err db (X.get_secret m.sender m.used_shared_secret s.secrets))
    ss ← lift (found_secret found)
    plain ←
        reading X P
          (λ s. decrypt_with_first P ratchet ss.x3dh_ss (X.all_signed_pre_keys s.signed_keys))
    persist_plain random m.sender plain
    accept_secret random m.sender ss

  -- A chat initialization has both keys.
  unfoldable pub receive_from :
      Random X
      → ChatMessage
      → RatchetMessage
      → Bytes
      → Option Bytes
      → Option Bytes
      → Action (State X P) (Unit {0})
  unfolding receive_init receive_later
  receive_from random m ratchet our_key (some ephemeral_key) (some signed_pre_key) =
      receive_init random m ratchet our_key ephemeral_key signed_pre_key
  receive_from random m ratchet our_key _ _ = receive_later random m ratchet

  unfoldable pub handle_received_message : Random X → ChatMessage → Action (State X P) (Unit {0})
  unfolding authenticate receive_from
  handle_received_message random m = do
    checked ← lift (authenticate S km m)
    receive_from random m checked.0 checked.1 m.ephemeral_key m.signed_pre_key
