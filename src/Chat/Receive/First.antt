-- ===== src/Chat/Receive/First.antt =====
-- What a chat initialization whose secret is not known leaves in the storages.
use panthalassa.Base.{
  ◌≡◌, refl, inl, inr, true, Option, none, some, arith, Bytes, IsBytes, length, nat_beq, ok, err,
  Result-cases, Bool-cases,
}
use panthalassa.KeyManager.{KeyManager}
use panthalassa.Identity.{Signing}
use panthalassa.Db.Vault.{nil_panic}
use panthalassa.Db.OneTimePreKeys.{KeyPair}
use panthalassa.Db.SharedSecrets.{SharedSecret}
use panthalassa.Chat.{
  ChatMessage, RatchetMessage, PlainChatMessage, ChatError, ProtocolInitialisation, Protocols, db,
  zero_ephemeral_key, zero_chat_id_key,
}
use panthalassa.Chat.Storages.{Storages, Random, State}
use panthalassa.Chat.Plain.{shared_secret_id, proto_plain_msg_to_message}
use panthalassa.Chat.Checks.{
  authenticate, authenticate_init, x3dh_key, byte_slice_to_x3dh_pub, accepted_secret,
}
use panthalassa.Chat.Receive.{
  persist_plain, decrypt_stored, store_first, receive_first, receive_init, receive_from,
  handle_received_message,
}

x3dh_key_ok : (bytes key : Bytes) (zero : ChatError) → x3dh_key bytes zero ≡ ok key → key ≡ bytes
unfolding x3dh_key byte_slice_to_x3dh_pub
x3dh_key_ok bytes key zero h = ground arith

module _ (S : Signing) (X : Storages) (P : Protocols) (km : KeyManager) where
  one_time_keys-persist_plain :
      (random : Random X) (sender : Bytes) (plain : PlainChatMessage) (s : State X P)
      → (persist_plain S X P km random sender plain s).1.one_time_keys ≡ s.one_time_keys
  unfolding persist_plain
  one_time_keys-persist_plain random sender plain s =
      elim (Result-cases (proto_plain_msg_to_message S P plain)) [
        | inr (e, p) ↦ ground arith
        | inl (message, p) ↦ ground arith
      ]

  secrets-persist_plain :
      (random : Random X) (sender : Bytes) (plain : PlainChatMessage) (s : State X P)
      → (persist_plain S X P km random sender plain s).1.secrets ≡ s.secrets
  unfolding persist_plain
  secrets-persist_plain random sender plain s =
      elim (Result-cases (proto_plain_msg_to_message S P plain)) [
        | inr (e, p) ↦ ground arith
        | inl (message, p) ↦ ground arith
      ]

  one_time_keys-store_first :
      (random : Random X) (sender our_key secret raw : Bytes) (s : State X P)
      → (store_first S X P km random sender our_key secret raw s).1.one_time_keys ≡ s.one_time_keys
  unfolding store_first
  one_time_keys-store_first random sender our_key secret raw s =
      elim (Result-cases (P.unmarshal_plain raw)) [
        | inr (e, u) ↦ ground arith
        | inl (plain, u) ↦ elim (Bool-cases (nat_beq (length plain.shared_secret_base_id) 32)) [
          | inr wrong ↦ ground arith
          | inl fits ↦
              elim (Result-cases
                (shared_secret_id S P sender our_key plain.shared_secret_base_id)) [
                  | inr (e, i) ↦ ground arith
                  | inl (id, i) ↦ elim (Bool-cases (nat_beq plain.shared_secret_creation_date 0)) [
                    | inl never ↦ ground arith
                    | inr date ↦
                        elim (Result-cases
                          (X.put_secret random.for_secret sender (accepted_secret secret id plain)
                            s.secrets).0) [
                              | inr (e, p) ↦ ground arith
                              | inl (v, p) ↦
                                  ground (arith, one_time_keys-persist_plain random sender plain)
                            ]
                  ]
                ]
        ]
      ]

  store_first_ok :
      (random : Random X) (sender our_key secret raw : Bytes) (s t : State X P)
      → IsBytes secret
      → length secret ≡ 32
      → store_first S X P km random sender our_key secret raw s ≡ (ok tt, t)
      → (plain : PlainChatMessage) × (id : Bytes) × (X.get_secret sender plain.shared_secret_base_id
            t.secrets
          ≡ ok (some (accepted_secret secret id plain)))
  unfolding store_first accepted_secret
  store_first_ok random sender our_key secret raw s t bytes fits h =
      elim (Result-cases (P.unmarshal_plain raw)) [
        | inr (e, u) ↦ absurd (ground arith)
        | inl (plain, u) ↦ elim (Bool-cases (nat_beq (length plain.shared_secret_base_id) 32)) [
          | inr wrong ↦ absurd (ground arith)
          | inl right ↦
              elim (Result-cases
                (shared_secret_id S P sender our_key plain.shared_secret_base_id)) [
                  | inr (e, i) ↦ absurd (ground arith)
                  | inl (id, i) ↦ elim (Bool-cases (nat_beq plain.shared_secret_creation_date 0)) [
                    | inl never ↦ absurd (ground arith)
                    | inr date ↦
                        let ss = accepted_secret secret id plain in
                        let put = X.put_secret random.for_secret sender ss s.secrets in
                        elim (Result-cases put.0) [
                          | inr (e, p) ↦ absurd (ground arith)
                          | inl (v, p) ↦ (
                            plain,
                            id,
                            ground (
                              arith,
                              secrets-persist_plain random sender plain
                                  (record s { secrets = put.1 }),
                              X.get-put random.for_secret sender ss s.secrets put.1,
                            ),
                          )
                        ]
                  ]
                ]
        ]
      ]

  module _ (random : Random X) (m : ChatMessage) (ratchet : RatchetMessage)
      (our_key ephemeral_key : Bytes) (pair : KeyPair) where
    one_time_keys-receive_first :
        (s : State X P) (found : Option Bytes) (u : X.OneTimeKeys)
        → X.cut m.one_time_pre_key s.one_time_keys ≡ (ok found, u)
        → (receive_first S X P km random m ratchet our_key ephemeral_key pair s).1.one_time_keys ≡ u
    unfolding receive_first decrypt_stored
    one_time_keys-receive_first s found u c =
        elim (Result-cases (x3dh_key ephemeral_key zero_ephemeral_key)) [
          | inr (e, k) ↦ ground arith
          | inl (ephemeral, k) ↦
              elim (Result-cases (x3dh_key m.sender_chat_id_key zero_chat_id_key)) [
                | inr (e, i) ↦ ground arith
                | inl (chat_id, i) ↦
                    let init : ProtocolInitialisation = record {
                      remote_id_key = chat_id;
                      remote_ephemeral_key = ephemeral;
                      my_one_time_pre_key = found;
                      my_signed_pre_key = pair.private_key;
                    } in
                    elim (Result-cases (P.secret_from_remote init)) [
                      | inr (e, x) ↦ ground arith
                      | inl (secret, x) ↦
                          elim (Result-cases
                            (P.ratchet_decrypt_stored secret pair ratchet s.ratchet_keys).0) [
                              | inr (e, d) ↦ ground arith
                              | inl (raw, d) ↦ ground (
                                arith,
                                one_time_keys-store_first random m.sender our_key secret raw,
                              )
                            ]
                    ]
              ]
        ]

    -- Once the one time pre key of a chat initialization was looked up without an error, it is
    -- used up, however the handling ends: a lookup of that key afterwards finds none.
    pub one_time_key_spent :
        (s : State X P) (found : Option Bytes) (u : X.OneTimeKeys)
        → X.cut m.one_time_pre_key s.one_time_keys ≡ (ok found, u)
        → (X.cut m.one_time_pre_key
            (receive_first S X P km random m ratchet our_key ephemeral_key pair
              s).1.one_time_keys).0
          ≡ ok none
    one_time_key_spent s found u c =
        rw (one_time_keys-receive_first s found u c)
          (X.cut_once m.one_time_pre_key s.one_time_keys u found c)

    -- After a chat initialization whose secret was not known was handled without an error, a
    -- secret is found for the sender, in accepted mode, that was derived from the used signed
    -- pre key and the sender's ephemeral key, where derived secrets have 32 bytes.
    pub secret_kept :
        (s t : State X P)
        → ((init : ProtocolInitialisation) (secret : Bytes)
            → P.secret_from_remote init ≡ ok secret
            → IsBytes secret × (length secret ≡ 32))
        → receive_first S X P km random m ratchet our_key ephemeral_key pair s ≡ (ok tt, t)
        → (ss : SharedSecret) × (init : ProtocolInitialisation) × (X.get_secret m.sender ss.base_id
              t.secrets
            ≡ ok (some ss))
          × (ss.accepted ≡ true)
          × (P.secret_from_remote init ≡ ok ss.x3dh_ss)
          × (init.my_signed_pre_key ≡ pair.private_key)
          × (init.remote_ephemeral_key ≡ ephemeral_key)
    unfolding receive_first decrypt_stored accepted_secret x3dh_key
    secret_kept s t law h = elim (Result-cases (X.cut m.one_time_pre_key s.one_time_keys).0) [
      | inr (e, c) ↦ absurd (ground arith)
      | inl (found, c) ↦ elim (Result-cases (x3dh_key ephemeral_key zero_ephemeral_key)) [
        | inr (e, k) ↦ absurd (ground arith)
        | inl (ephemeral, k) ↦
            elim (Result-cases (x3dh_key m.sender_chat_id_key zero_chat_id_key)) [
              | inr (e, i) ↦ absurd (ground arith)
              | inl (chat_id, i) ↦
                  let init : ProtocolInitialisation = record {
                    remote_id_key = chat_id;
                    remote_ephemeral_key = ephemeral;
                    my_one_time_pre_key = found;
                    my_signed_pre_key = pair.private_key;
                  } in
                  elim (Result-cases (P.secret_from_remote init)) [
                    | inr (e, x) ↦ absurd (ground arith)
                    | inl (secret, x) ↦
                        elim (Result-cases
                          (P.ratchet_decrypt_stored secret pair ratchet s.ratchet_keys).0) [
                            | inr (e, d) ↦ absurd (ground arith)
                            | inl (raw, d) ↦
                                let (bytes, fits) = law init secret x in
                                let (plain, id, g) =
                                  store_first_ok random m.sender our_key secret raw
                                    (record s {
                                      one_time_keys = (X.cut m.one_time_pre_key s.one_time_keys).1;
                                      ratchet_keys =
                                          (P.ratchet_decrypt_stored secret pair ratchet
                                            s.ratchet_keys).1;
                                    })
                                    t bytes fits (ground arith) in
                                (
                                  accepted_secret secret id plain,
                                  init,
                                  g,
                                  refl,
                                  x,
                                  refl,
                                  x3dh_key_ok ephemeral_key ephemeral zero_ephemeral_key k,
                                )
                          ]
                  ]
            ]
      ]
    ]

  -- A chat initialization that passes every check and names a signed pre key whose lookup panics,
  -- as that of a missing key does, makes the handler panic.
  pub handle_unknown_signed_pre_key :
      (random : Random X) (m : ChatMessage) (s : State X P) (ephemeral_key signed_pre_key : Bytes)
      (checked : RatchetMessage × Bytes)
      → m.ephemeral_key ≡ some ephemeral_key
      → m.signed_pre_key ≡ some signed_pre_key
      → authenticate S km m ≡ ok checked
      → authenticate_init S km m ephemeral_key signed_pre_key ≡ ok tt
      → X.get_signed_pre_key signed_pre_key s.signed_keys ≡ err nil_panic
      → handle_received_message S X P km random m s ≡ (err (db nil_panic), s)
  unfolding handle_received_message receive_from receive_init
  handle_unknown_signed_pre_key random m s ephemeral_key signed_pre_key checked he hs ha hi hk =
      ground arith
