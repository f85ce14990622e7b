-- ===== src/Dapp/Message/Stored.antt =====
-- What a call of "sendMessage" leaves in the chat.
use panthalassa.Base.{
  ℕ, ◌^◌, ◌<◌, ◌≤◌, ◌≡◌, Option, some, List, [], ◌∷◌, arith, Bytes, length, Result, ok, err,
  Result-cases, inl, inr, hex_decode,
}
use panthalassa.Bolt.{Transactions, Buckets, Nested}
use panthalassa.Crypto.Aes.{AesError}
use panthalassa.Db.Vault.{Vault, DbError}
use panthalassa.Db.Message.{DappMessage, Message}
use panthalassa.Db.ChatMessages.{MessageJson, PersistedEvent, persist_dapp_message, get_message}
use panthalassa.Db.ChatMessages.Stored.{get-persist_message}
use panthalassa.Limits.CountThrottling.{exec}
use panthalassa.Dapp.Validator.{Otto, argument, validate, validate_object}
use panthalassa.Dapp.Message.{
  ParamsJson, called, decreased, Sending, call_rules, payload_rules, read_chat, read_call, submit,
  send_message, job_effects, run_job,
}

module _ (O : Otto) (P : ParamsJson O) (dapp : Bytes) where
  read_chat_lem :
      (text chat : Bytes)
      → read_chat O P dapp text ≡ ok chat
      → (hex_decode text ≡ ok chat) × (length chat ≡ 32)
  unfolding read_chat
  read_chat_lem text chat h = elim (Result-cases (hex_decode text)) [
    | inr (e, r) ↦ absurd (ground arith)
    | inl (c, r) ↦ (ground arith, ground arith)
  ]

  read_call_lem :
      (call : List O.Value) (chat : Bytes) (msg : DappMessage)
      → read_call O P dapp call ≡ ok (chat, msg)
      → (hex_decode (O.text (argument O call 0)) ≡ ok chat)
        × (length chat ≡ 32)
        × (msg.dapp_public_key ≡ dapp)
  unfolding read_call
  read_call_lem call chat msg h =
      let read = read_chat_lem (O.text (argument O call 0)) in
      let payload = argument O call 1 in
      elim (Result-cases (validate O (call_rules O) call)) [
        | inr (e, hu) ↦ absurd (ground arith)
        | inl (u, hu) ↦ elim (Result-cases (validate_object O (payload_rules O) payload)) [
          | inr (e, hv) ↦ absurd (ground arith)
          | inl (v, hv) ↦ elim (Result-cases (read_chat O P dapp (O.text (argument O call 0)))) [
            | inr (e, hc) ↦ absurd (ground arith)
            | inl (c, hc) ↦
                let (text, long) = read c hc in (ground arith, ground arith, ground arith)
          ]
        ]
      ]

  -- A call that the limiter refuses, whose callback is never called and whose message is lost.
  pub send_message_refused :
      (n : ℕ) (call : List O.Value) (job : Bytes × DappMessage) (s : Sending)
      → s.req_lim.max_queue ≤ length s.req_lim.stack
      → read_call O P dapp call ≡ ok job
      → send_message O P dapp n call s ≡ ([], s)
  unfolding send_message submit exec
  send_message_refused n call job s full h = ground arith

  module _ (T : Transactions DbError) (B : Buckets DbError) (N : Nested DbError B.Bucket B.empty)
      (V : Vault) (J : MessageJson) where
    persist_dapp_message_ok :
        (uuid : Result DbError Bytes) (now : ℕ) (random : Result AesError Bytes) (chat : Bytes)
        (msg : DappMessage) (s t : Option N.Outer) (e : PersistedEvent)
        → now < 2 ^ 64
        → persist_dapp_message T B N V J uuid now random chat msg s ≡ (ok e, t)
        → (e.message.dapp ≡ some msg)
          × (get_message T B N V J chat e.db_message_id t ≡ ok (some e.message))
    unfolding persist_dapp_message
    persist_dapp_message_ok (err x) now random chat msg s t e small h = absurd (ground arith)
    persist_dapp_message_ok (ok id) now random chat msg s t e small h =
        let (at, stored, found) = get-persist_message T B N V J random chat _ s small e t h in
        (ground arith, found)

    -- Where a call of sendMessage was accepted, at a time that is a pattern of 64 bits, and its
    -- job only calls the callback once without an error and decreases the limiter, `GetMessage`
    -- finds a message with what the call gave, in the chat of 32 bytes that it named in
    -- hexadecimal, with the signing key of the DApp.
    pub get_message-run_job :
        (uuid : Result DbError Bytes) (now : ℕ) (random : Result AesError Bytes)
        (call : List O.Value) (chat : Bytes) (msg : DappMessage) (s t : Option N.Outer)
        → now < 2 ^ 64
        → read_call O P dapp call ≡ ok (chat, msg)
        → run_job O P dapp T B N V J uuid now random (chat, msg) (argument O call 2) s
          ≡ (called ∷ decreased ∷ [], t)
        → (hex_decode (O.text (argument O call 0)) ≡ ok chat)
          × (length chat ≡ 32)
          × (msg.dapp_public_key ≡ dapp)
          × ((id : ℕ) × (m : Message) × (m.dapp ≡ some msg)
              × (get_message T B N V J chat id t ≡ ok (some m)))
    unfolding run_job job_effects
    get_message-run_job uuid now random call chat msg s t small accepted done =
        let (text, long, own) = read_call_lem call chat msg accepted in
        elim (Result-cases (persist_dapp_message T B N V J uuid now random chat msg s).0) [
          | inr (e, r) ↦ absurd (ground arith)
          | inl (e, r) ↦
              let (kept, found) =
                persist_dapp_message_ok uuid now random chat msg s t e small (ground arith) in
              (text, long, own, (e.db_message_id, e.message, kept, found))
        ]
