-- ===== src/Tests/Sending.antt =====
-- Tests of what the chat sends and publishes.
use panthalassa.Base.{
  ℕ, zero, suc, ◌≡◌, ◌≤◌, refl, Bool, true, false, Option, none, some, List, [], ◌∷◌, ◌++◌, arith,
  Bytes, length, replicate, Result, ok, err, if◌then◌else◌,
}
use panthalassa.Crypto.Aes.{AesError}
use panthalassa.Db.Vault.{DbError}
use panthalassa.Identity.PreKey.{PreKey, ProtoPreKey, verify_signature}
use panthalassa.Db.Message.{valid_message}
use panthalassa.Db.OneTimePreKeys.{KeyPair, put}
use panthalassa.Db.SharedSecrets.{SharedSecret}
use panthalassa.Chat.{ChatMessage}
use panthalassa.Chat.Outgoing.{Outgoing}
use panthalassa.Chat.Send.{sender_key, ensure_secret, build_message, signed_pre_key_for}
use panthalassa.Chat.Send.Submitted.{Carries, build_message_sound, signed_pre_key_for_sound}
use panthalassa.Chat.NewPreKeys.{with_random, one_time_pre_keys_handler}
use panthalassa.Chat.NewPreKeys.Published.{ArePublished, one_time_pre_keys_handler_ok}
use panthalassa.Tests.Models.{transactions, buckets, Pairs}
use panthalassa.Tests.Texts.{plain_vault, sample}
use panthalassa.Tests.Identity.{signing, our_manager, our_key_lem, verifies, signed_key, now}
use panthalassa.Tests.Secrets.{our_secret, partner}

abbrev outgoing : Outgoing
outgoing = record {
  State = Bool;
  has_any = λ user s. ok true;
  put_secret = λ user ss s. (ok tt, s);
  get_youngest = λ user s. ok (some our_secret);
  get_signed_pre_key = λ user s. ok (some signed_key);
  put_signed_pre_key = λ user key s. (ok tt, s);
  calculate_secret = λ user s. (err 0, s);
  fetch_signed_pre_key = λ user s. (ok signed_key, s);
  submit_message = λ m s. (ok tt, s);
  ratchet_encrypt = λ secret key raw.
      ok (record { double_ratchet_pk = replicate 32 9; n = 0; pn = 0; cipher_text = raw });
  marshal_plain = λ m. ok m.message;
  multihash = λ a b c. ok [];
  now = now;
  truncated_now = record { unix = 200; nanos = 0 };
  random_base_id = ok (replicate 32 3);
  past_key_end = λ short. ok short;
}

abbrev sent : ChatMessage
sent = record {
  message_id = sample.id;
  receiver = partner;
  sender = replicate 32 17;
  message =
      some (record {
        double_ratchet_pk = replicate 32 9;
        n = 0;
        pn = 0;
        cipher_text = sample.message;
      });
  one_time_pre_key = [];
  signed_pre_key = none;
  ephemeral_key = none;
  ephemeral_key_signature = [];
  sender_chat_id_key = [];
  sender_chat_id_key_signature = [];
  used_shared_secret = replicate 32 3;
}

build_message_sound_example :
    (valid_message sample ≡ ok tt)
    × (sender : Bytes) × (ss : SharedSecret) × (sender_key signing outgoing our_manager ≡ ok sender)
    × ((ensure_secret signing outgoing our_manager sender partner true).0 ≡ ok tt)
    × (outgoing.get_youngest partner
          (ensure_secret signing outgoing our_manager sender partner true).1
        ≡ ok (some ss))
    × Carries signing outgoing our_manager ss sender partner sample sent
unfolding build_message valid_message panthalassa.KeyManager.identity_public_key
    panthalassa.KeyStore.get_key panthalassa.Base.lookup panthalassa.Base.hex_decode
    verify_signature panthalassa.Base.bytes_beq panthalassa.Base.put_varint
    panthalassa.Identity.PreKey.older_than panthalassa.Identity.after
build_message_sound_example =
    build_message_sound signing outgoing our_manager partner sample sent true true refl

signed_pre_key_for_sound_example : verify_signature signing signed_key partner ≡ ok true
unfolding signed_pre_key_for verify_signature panthalassa.Base.bytes_beq panthalassa.Base.put_varint
    panthalassa.Identity.PreKey.older_than panthalassa.Identity.after
signed_pre_key_for_sound_example =
    signed_pre_key_for_sound signing outgoing our_manager partner signed_key true true refl

abbrev key_pair : ℕ → Result ℕ KeyPair
key_pair round = ok (record { public_key = replicate 32 7; private_key = replicate 32 8 })

abbrev random : ℕ → Result AesError Bytes
random round = ok []

key_length : (i : ℕ) (pair : KeyPair) → key_pair i ≡ ok pair → length pair.public_key ≡ 32
key_length i pair h = ground arith

abbrev new_keys : List ProtoPreKey
new_keys =
    (record {
      key = replicate 32 7;
      identity_key = replicate 32 17;
      identity_key_signature =
          replicate 32 7 ++ (replicate 32 17 ++ (255 ∷ 219 ∷ 143 ∷ 249 ∷ 206 ∷ 3 ∷ []));
      time_stamp = 18446744011573954816;
    })
    ∷ []

one_time_pre_keys_handler_ok_example :
    (pairs : List KeyPair) × (1 ≤ 100)
    × (length new_keys ≡ 1)
    × ArePublished signing our_manager (replicate 32 17) our_key_lem verifies pairs new_keys
    × (put (transactions DbError) buckets plain_vault (with_random random 0 pairs) none
        ≡ (ok tt, some ((replicate 32 7, replicate 32 8) ∷ [])))
unfolding one_time_pre_keys_handler put panthalassa.Tests.Models.run_update
    panthalassa.Db.OneTimePreKeys.put_update with_random panthalassa.Db.Vault.seal
    panthalassa.Tests.Texts.plain_encrypt panthalassa.Tests.Texts.plain_marshal
    panthalassa.Tests.Models.put_pair panthalassa.Identity.PreKey.sign panthalassa.Base.insert
    panthalassa.KeyManager.identity_public_key panthalassa.KeyStore.get_key panthalassa.Base.lookup
    panthalassa.Base.hex_decode panthalassa.Base.bytes_beq panthalassa.Base.put_varint
    panthalassa.KeyManager.identity_sign panthalassa.Identity.PreKey.to_protobuf
one_time_pre_keys_handler_ok_example =
    one_time_pre_keys_handler_ok signing our_manager (replicate 32 17) our_key_lem verifies
      (transactions DbError) buckets plain_vault key_pair random 1 none
      (some ((replicate 32 7, replicate 32 8) ∷ [])) new_keys key_length refl
