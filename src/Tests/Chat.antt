-- ===== src/Tests/Chat.antt =====
-- Tests of the messages that the chat receives, over the storages of bbolt.
use panthalassa.Base.{
  IsBytes, length, ℕ, ◌≡◌, ◌+◌, refl, inl, Bool, true, false, Option, none, some, List, [], ◌∷◌,
  arith, Bytes, replicate, Result, ok, err, lookup, insert, bytes_eq, bytes_beq,
}
use panthalassa.Crypto.Aes.{CipherText}
use panthalassa.Identity.{Signing}
use panthalassa.Db.Vault.{DbError, nil_panic}
use panthalassa.Db.Message.{Message}
use panthalassa.Db.OneTimePreKeys.{KeyPair}
use panthalassa.Db.SignedPreKeys.{SignedPreKey, SignedPreKeyJson}
use panthalassa.Db.SharedSecrets.{SharedSecret}
use panthalassa.Chat.{
  ChatMessage, RatchetMessage, PlainChatMessage, ChatError, ProtocolInitialisation, Protocols, db,
}
use panthalassa.Chat.Storages.{Storages, Random, State}
use panthalassa.Chat.Persistent.{bolt_storages, GoodSource}
use panthalassa.Chat.Receive.{receive_first, receive_later, handle_received_message}
use panthalassa.Chat.Receive.Authentic.{handle_forged}
use panthalassa.Chat.Receive.First.{one_time_key_spent, secret_kept}
use panthalassa.Chat.Receive.Replay.{receive_later_again, stored_as}
use panthalassa.Tests.Models.{transactions, buckets, nested, Pairs, Chats}
use panthalassa.Tests.Texts.{plain_vault, plain_cipher_text, plain_encrypt, message_json, sample}
use panthalassa.Tests.Identity.{signing, our_manager}
use panthalassa.Tests.Secrets.{secret_json, our_secret, partner, one_secret}

abbrev chat_signing : Signing
chat_signing = record signing { sha3_multihash = λ text. ok [] }

pub never_ok : (raw : Bytes) → (let r : Result ℕ Bytes = err 0 in r) ≡ ok raw → ⊥
never_ok raw h = ground arith

abbrev signed_json : SignedPreKeyJson
signed_json = record {
  marshal = λ key. err 0;
  unmarshal = λ raw. ok (record {
    valid_till = 0;
    private_key = replicate 32 8;
    public_key = replicate 32 5;
    version = 1;
  });
  marshal_bytes = λ key raw h. absurd (never_ok raw h);
  unmarshal-marshal = λ key raw h. absurd (never_ok raw h);
}

abbrev storages : Storages
storages =
    bolt_storages (transactions DbError) buckets nested plain_vault signed_json secret_json
      message_json

abbrev protocols : Protocols
protocols = record {
  RatchetKeys = Bool;
  secret_from_remote = λ init. ok (replicate 32 6);
  ratchet_decrypt = λ secret pair m. ok [];
  ratchet_decrypt_stored = λ secret pair m keys. (ok [], keys);
  unmarshal_plain = λ raw. ok (record {
    message_id = sample.id;
    message = sample.message;
    created_at = sample.created_at;
    version = 1;
    dapp_public_key = [];
    type = [];
    params = none;
    shared_secret_base_id = replicate 32 3;
    shared_secret_creation_date = 9;
  });
  params_text = λ text. ok text;
}

abbrev ratchet : RatchetMessage
ratchet = record { double_ratchet_pk = replicate 32 9; n = 0; pn = 0; cipher_text = [] }

abbrev message : Bytes → ChatMessage
message signature = record {
  message_id = sample.id;
  receiver = replicate 32 17;
  sender = partner;
  message = some ratchet;
  one_time_pre_key = 1 ∷ [];
  signed_pre_key = some (replicate 32 5);
  ephemeral_key = some (replicate 32 2);
  ephemeral_key_signature = signature;
  sender_chat_id_key = replicate 32 4;
  sender_chat_id_key_signature = replicate 32 4;
  used_shared_secret = replicate 32 3;
}

abbrev source :
    GoodSource
      (transactions DbError)
      buckets
      nested
      plain_vault
      signed_json
      secret_json
      message_json
source = (ok [], encrypted)
  where
    encrypted : (text : Bytes) → (ct : CipherText) × (plain_encrypt (ok []) text ≡ ok ct)
    encrypted text = unfold plain_encrypt in (plain_cipher_text text, refl)

abbrev random : Random storages
random = record { for_secret = source; for_message = source }

abbrev stored : Option Pairs
stored = some ((1 ∷ [], replicate 32 4) ∷ [])

abbrev state : Option Pairs → Option Chats → State storages protocols
state signed secrets = record {
  one_time_keys = stored;
  signed_keys = signed;
  secrets = secrets;
  messages = none;
  ratchet_keys = true;
}

handle_forged_example :
    (e : ChatError) × (handle_received_message chat_signing storages protocols our_manager random
        (message [])
        (state none none)
      ≡ (err e, state none none))
unfolding bytes_beq
handle_forged_example =
    handle_forged chat_signing storages protocols our_manager random (message []) (state none none)
      (replicate 32 2) (replicate 32 5) refl refl (inl refl)

abbrev pair : KeyPair
pair = record { public_key = replicate 32 5; private_key = replicate 32 8 }

one_time_key_spent_example :
    (storages.cut
      (1 ∷ [])
      (receive_first chat_signing storages protocols our_manager random
        (message [])
        ratchet
        (replicate 32 17)
        (replicate 32 2)
        pair
        (state none none)).1.one_time_keys).0
    ≡ ok none
unfolding bytes_beq panthalassa.Db.OneTimePreKeys.cut panthalassa.Tests.Models.run_update
    panthalassa.Db.OneTimePreKeys.cut_update lookup panthalassa.Tests.Texts.plain_unmarshal
    panthalassa.Tests.Texts.plain_decrypt panthalassa.Tests.Models.delete_pair
    panthalassa.Base.remove
one_time_key_spent_example =
    one_time_key_spent chat_signing storages protocols our_manager random (message []) ratchet
      (replicate 32 17) (replicate 32 2) pair (state none none) (some (replicate 32 4)) (some [])
      refl

secret_fits :
    (init : ProtocolInitialisation) (secret : Bytes)
    → protocols.secret_from_remote init ≡ ok secret
    → IsBytes secret × (length secret ≡ 32)
secret_fits init secret h =
    let same : replicate 32 6 ≡ secret = ground arith in rw (← same) (omega arith, refl)

kept :
    receive_first chat_signing storages protocols our_manager random
      (message [])
      ratchet
      (replicate 32 17)
      (replicate 32 2)
      pair
      (state none none)
    ≡ (
      ok tt,
      (receive_first chat_signing storages protocols our_manager random
          (message [])
          ratchet
          (replicate 32 17)
          (replicate 32 2)
          pair
          (state none none)).1,
    )
unfolding receive_first panthalassa.Db.OneTimePreKeys.cut panthalassa.Db.OneTimePreKeys.cut_update
    panthalassa.Tests.Texts.plain_unmarshal panthalassa.Tests.Texts.plain_decrypt
    panthalassa.Tests.Models.delete_pair panthalassa.Base.remove panthalassa.Db.SharedSecrets.put
    panthalassa.Db.SharedSecrets.put_body panthalassa.Bolt.Within.put_at
    panthalassa.Db.SharedSecrets.persisted panthalassa.Tests.Secrets.marshal_secret
    panthalassa.Bolt.change panthalassa.Chat.Plain.proto_plain_msg_to_message
    panthalassa.Chat.Persistent.persist panthalassa.Db.ChatMessages.persist_received_message
    panthalassa.Db.ChatMessages.persist_message panthalassa.Db.Message.valid_message
    panthalassa.Tests.Models.run_update panthalassa.Db.ChatMessages.persist_update
    panthalassa.Tests.Models.create_chat lookup insert bytes_beq
    panthalassa.Tests.Texts.sample_marshal panthalassa.Tests.Texts.plain_encrypt
    panthalassa.Tests.Texts.plain_marshal panthalassa.Tests.Models.put_pair
    panthalassa.Base.put_uint64 panthalassa.Base.uint64 panthalassa.Chat.Plain.shared_secret_id
    panthalassa.Db.ChatMessages.find_key panthalassa.Db.Vault.seal
kept = refl

secret_kept_example :
    (ss : SharedSecret) × (init : ProtocolInitialisation) × (storages.get_secret partner ss.base_id
        (receive_first chat_signing storages protocols our_manager random
          (message [])
          ratchet
          (replicate 32 17)
          (replicate 32 2)
          pair
          (state none none)).1.secrets
      ≡ ok (some ss))
    × (ss.accepted ≡ true)
    × (protocols.secret_from_remote init ≡ ok ss.x3dh_ss)
    × (init.my_signed_pre_key ≡ replicate 32 8)
    × (init.remote_ephemeral_key ≡ replicate 32 2)
secret_kept_example =
    secret_kept chat_signing storages protocols our_manager random (message []) ratchet
      (replicate 32 17) (replicate 32 2) pair (state none none)
      (receive_first chat_signing storages protocols our_manager random (message []) ratchet
        (replicate 32 17) (replicate 32 2) pair (state none none)).1
      secret_fits kept

abbrev signed_keys : Option Pairs
signed_keys = some ((replicate 32 5, 1 ∷ []) ∷ [])

abbrev after_one : State storages protocols
after_one =
    (receive_later chat_signing storages protocols our_manager random (message []) ratchet
      (state signed_keys one_secret)).1

known :
    storages.get_secret partner (replicate 32 3) (state signed_keys one_secret).secrets
    ≡ ok (some our_secret)
unfolding panthalassa.Db.SharedSecrets.get panthalassa.Bolt.Within.raw_at lookup bytes_beq
    panthalassa.Tests.Secrets.unmarshal_secret panthalassa.Tests.Texts.plain_decrypt
known = refl

handled :
    receive_later chat_signing storages protocols our_manager random
      (message [])
      ratchet
      (state signed_keys one_secret)
    ≡ (ok tt, after_one)
unfolding receive_later panthalassa.Db.SharedSecrets.get panthalassa.Bolt.Within.raw_at
    panthalassa.Tests.Secrets.unmarshal_secret panthalassa.Tests.Texts.plain_decrypt
    panthalassa.Db.SignedPreKeys.all panthalassa.Db.Vault.unseal
    panthalassa.Tests.Texts.plain_unmarshal panthalassa.Chat.Plain.proto_plain_msg_to_message
    panthalassa.Chat.Persistent.persist panthalassa.Db.ChatMessages.persist_received_message
    panthalassa.Db.ChatMessages.persist_message panthalassa.Db.Message.valid_message
    panthalassa.Tests.Models.run_update panthalassa.Db.ChatMessages.persist_update
    panthalassa.Tests.Models.create_chat lookup insert bytes_beq
    panthalassa.Tests.Texts.sample_marshal panthalassa.Tests.Texts.plain_encrypt
    panthalassa.Tests.Texts.plain_marshal panthalassa.Tests.Models.put_pair
    panthalassa.Base.put_uint64 panthalassa.Base.uint64 panthalassa.Db.ChatMessages.find_key
    panthalassa.Db.Vault.seal
handled = refl

receive_later_again_example :
    (m : Message) × (stored_as chat_signing storages protocols our_manager
        (message [])
        ratchet
        our_secret
        m
        random
        (state signed_keys one_secret)
      ≡ (ok tt, after_one))
    × (receive_later chat_signing storages protocols our_manager random
          (message [])
          ratchet
          after_one
        ≡ stored_as chat_signing storages protocols our_manager
            (message [])
            ratchet
            our_secret
            m
            random
            after_one)
receive_later_again_example =
    receive_later_again chat_signing storages protocols our_manager (message []) ratchet our_secret
      random random (state signed_keys one_secret) after_one refl known handled
