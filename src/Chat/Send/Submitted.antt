-- ===== src/Chat/Send/Submitted.antt =====
-- What is submitted to the backend.
use panthalassa.Base.{
  ◌≡◌, inl, inr, true, false, none, some, arith, Bytes, length, nat_beq, ok, Result-cases,
  Bool-cases, if◌then◌else◌,
}
use panthalassa.KeyManager.{KeyManager, chat_id_key_pair, identity_sign}
use panthalassa.Identity.{Signing}
use panthalassa.Identity.PreKey.{PreKey, verify_signature, older_than}
use panthalassa.Db.Message.{Message, valid_message}
use panthalassa.Db.SharedSecrets.{SharedSecret}
use panthalassa.Chat.{ChatMessage, RatchetMessage}
use panthalassa.Chat.Outgoing.{
  Outgoing, plain_of, attach_secret, valid_x3dh_pub, valid_optional_pub,
}
use panthalassa.Chat.Send.{
  sender_key, ensure_secret, youngest_secret, fetch_signed_pre_key, refresh_signed_pre_key,
  refresh_expired, refresh_missing, signed_pre_key_for, message_for, attach_keys, with_keys,
  encrypt, assemble, build_message,
}

module _ (S : Signing) (O : Outgoing) (km : KeyManager) where
  -- What the partner needs of a message under `ss`.
  abbrev pub Carries : SharedSecret → Bytes → Bytes → Message → ChatMessage → Type 0
  Carries ss sender receiver m message =
      (message.sender ≡ sender)
      × (message.receiver ≡ receiver)
      × (message.message_id ≡ m.id)
      × (message.used_shared_secret ≡ ss.base_id)
      × (length ss.base_id ≡ 32)
      × (message.ephemeral_key ≡ (if ss.accepted then none else some ss.ephemeral_key))
      × (message.signed_pre_key ≡ (if ss.accepted then none else some ss.used_signed_pre_key))

  -- What stays and what is set when the keys are attached.
  attach_keys_ok :
      (ss : SharedSecret) (m message : ChatMessage) (s t : O.State)
      → attach_keys S O km ss m s ≡ (ok message, t)
      → (message.sender ≡ m.sender)
        × (message.receiver ≡ m.receiver)
        × (message.message_id ≡ m.message_id)
        × (message.used_shared_secret ≡ m.used_shared_secret)
        × (message.ephemeral_key ≡ some ss.ephemeral_key)
        × (message.signed_pre_key ≡ some ss.used_signed_pre_key)
  unfolding attach_keys
  attach_keys_ok ss m message s t h =
      elim (Result-cases (valid_optional_pub ss.used_one_time_pre_key)) [
        | inr (e, a) ↦ absurd (ground arith)
        | inl (u, a) ↦ elim (Result-cases (valid_x3dh_pub ss.used_signed_pre_key)) [
          | inr (e, b) ↦ absurd (ground arith)
          | inl (v, b) ↦ elim (Result-cases (valid_x3dh_pub ss.ephemeral_key)) [
            | inr (e, c) ↦ absurd (ground arith)
            | inl (w, c) ↦ elim (Result-cases (chat_id_key_pair O.past_key_end km)) [
              | inr (e, d) ↦ absurd (ground arith)
              | inl (pair, d) ↦ elim (Result-cases (identity_sign S.sign km pair.1)) [
                | inr (e, f) ↦ absurd (ground arith)
                | inl (signature, f) ↦ ground arith
              ]
            ]
          ]
        ]
      ]

  with_keys_ok :
      (ss : SharedSecret) (sender receiver : Bytes) (m : Message) (ratchet : RatchetMessage)
      (message : ChatMessage) (s t : O.State)
      → length ss.base_id ≡ 32
      → with_keys S O km ss (message_for S O km sender receiver m ss ratchet) s ≡ (ok message, t)
      → Carries ss sender receiver m message
  unfolding with_keys message_for
  with_keys_ok ss sender receiver m ratchet message s t fits h = elim (Bool-cases ss.accepted) [
    | inl accepted ↦ ground arith
    | inr pending ↦
        let made =
          attach_keys_ok ss (message_for S O km sender receiver m ss ratchet) message s t
            (ground arith) in
        ground arith
  ]

  assemble_ok :
      (sender receiver : Bytes) (m : Message) (ss : SharedSecret) (key : PreKey)
      (message : ChatMessage) (s t : O.State)
      → assemble S O km sender receiver m ss key s ≡ (ok message, t)
      → Carries ss sender receiver m message
  unfolding assemble
  assemble_ok sender receiver m ss key message s t h =
      elim (Result-cases (attach_secret ss (plain_of m))) [
        | inr (e, a) ↦ absurd (ground arith)
        | inl (plain, a) ↦ elim (Result-cases (encrypt S O km ss key plain)) [
          | inr (e, b) ↦ absurd (ground arith)
          | inl (ratchet, b) ↦
              let keyed = with_keys S O km ss (message_for S O km sender receiver m ss ratchet) s in
              elim (Result-cases keyed.0) [
                | inr (e, c) ↦ absurd (ground arith)
                | inl (complete, c) ↦ elim (Bool-cases (nat_beq (length ss.base_id) 32)) [
                  | inr short ↦ absurd (ground arith)
                  | inl fits ↦
                      with_keys_ok ss sender receiver m ratchet message s keyed.1 (ground arith)
                        (ground arith)
                ]
              ]
        ]
      ]

  youngest_secret_ok :
      (receiver : Bytes) (ss : SharedSecret) (s : O.State)
      → (youngest_secret S O km receiver s).0 ≡ ok ss
      → O.get_youngest receiver s ≡ ok (some ss)
  unfolding youngest_secret
  youngest_secret_ok receiver ss s h = elim (Result-cases (O.get_youngest receiver s)) [
    | inr (e, a) ↦ absurd (ground arith)
    | inl (none, a) ↦ absurd (ground arith)
    | inl (some found, a) ↦ ground arith
  ]

  -- A message that `SendMessage` builds without an error comes from a message that is valid in
  -- the database, and is from the account's key to the receiver. After a secret was agreed on
  -- where there was none, the storage has a youngest secret of the receiver, whose base id of 32
  -- bytes the message names; the ephemeral key and the signed pre key of that secret, which make
  -- the message a chat initialization, go with it exactly while that secret has not been
  -- accepted.
  pub build_message_sound :
      (receiver : Bytes) (m : Message) (message : ChatMessage) (s t : O.State)
      → build_message S O km receiver m s ≡ (ok message, t)
      → (valid_message m ≡ ok tt)
        × (sender : Bytes) × (ss : SharedSecret) × (sender_key S O km ≡ ok sender)
        × ((ensure_secret S O km sender receiver s).0 ≡ ok tt)
        × (O.get_youngest receiver (ensure_secret S O km sender receiver s).1 ≡ ok (some ss))
        × Carries ss sender receiver m message
  unfolding build_message
  build_message_sound receiver m message s t h = elim (Result-cases (valid_message m)) [
    | inr (e, a) ↦ absurd (ground arith)
    | inl (tt, a) ↦ elim (Result-cases (sender_key S O km)) [
      | inr (e, b) ↦ absurd (ground arith)
      | inl (sender, b) ↦
          let ensured = ensure_secret S O km sender receiver s in
          elim (Result-cases ensured.0) [
            | inr (e, c) ↦ absurd (ground arith)
            | inl (tt, c) ↦
                let young = youngest_secret S O km receiver ensured.1 in
                elim (Result-cases young.0) [
                  | inr (e, d) ↦ absurd (ground arith)
                  | inl (ss, d) ↦
                      let keyed = signed_pre_key_for S O km receiver young.1 in
                      elim (Result-cases keyed.0) [
                        | inr (e, f) ↦ absurd (ground arith)
                        | inl (key, f) ↦ (
                          a,
                          sender,
                          ss,
                          b,
                          c,
                          youngest_secret_ok receiver ss ensured.1 d,
                          assemble_ok sender receiver m ss key message keyed.1 t (ground arith),
                        )
                      ]
                ]
          ]
    ]
  ]

  fetch_ok :
      (user : Bytes) (key : PreKey) (s t : O.State)
      → fetch_signed_pre_key S O km user s ≡ (ok key, t)
      → verify_signature S key user ≡ ok true
  unfolding fetch_signed_pre_key
  fetch_ok user key s t h = elim (Result-cases (O.get_signed_pre_key user s)) [
    | inr (e, a) ↦ absurd (ground arith)
    | inl (none, a) ↦ absurd (ground arith)
    | inl (some found, a) ↦ elim (Result-cases (verify_signature S found user)) [
      | inr (e, b) ↦ absurd (ground arith)
      | inl (false, b) ↦ absurd (ground arith)
      | inl (true, b) ↦ ground arith
    ]
  ]

  -- The signed pre key that a message is encrypted for verifies under the key of the receiver,
  -- whether it was stored, fetched because it was missing, or fetched again.
  pub signed_pre_key_for_sound :
      (user : Bytes) (key : PreKey) (s t : O.State)
      → signed_pre_key_for S O km user s ≡ (ok key, t)
      → verify_signature S key user ≡ ok true
  unfolding signed_pre_key_for refresh_expired
  signed_pre_key_for_sound user key s t h = elim (Result-cases (O.get_signed_pre_key user s)) [
    | inr (e, a) ↦ absurd (ground arith)
    | inl (stored, a) ↦
        let refreshed = refresh_missing S O km user stored s in
        elim (Result-cases refreshed.0) [
          | inr (e, b) ↦ absurd (ground arith)
          | inl (tt, b) ↦
              let fetched = fetch_signed_pre_key S O km user refreshed.1 in
              elim (Result-cases fetched.0) [
                | inr (e, c) ↦ absurd (ground arith)
                | inl (first, c) ↦ elim (Bool-cases (older_than O.truncated_now first)) [
                  | inr fresh ↦ fetch_ok user key refreshed.1 fetched.1 (ground arith)
                  | inl expired ↦
                      let renewed = refresh_signed_pre_key S O km user fetched.1 in
                      elim (Result-cases renewed.0) [
                        | inr (e, d) ↦ absurd (ground arith)
                        | inl (tt, d) ↦ fetch_ok user key renewed.1 t (ground arith)
                      ]
                ]
              ]
        ]
  ]
