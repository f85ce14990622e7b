-- ===== src/Chat/Receive/Authentic.antt =====
-- Whose messages are handled.
use panthalassa.Base.{
  ◌≡◌, ◌≢◌, ◌⊎◌, inl, inr, true, false, some, arith, Bytes, length, nat_beq, bytes_beq,
  bytes_beq_iff, hex_encode, ok, err, Result-cases, Bool-cases,
}
use panthalassa.KeyManager.{KeyManager, identity_public_key}
use panthalassa.Identity.{Signing, ed25519_verify}
use panthalassa.Chat.{ChatMessage, RatchetMessage, ChatError, Protocols}
use panthalassa.Chat.Storages.{Storages, Random, State}
use panthalassa.Chat.Checks.{signed_by, authenticate, authenticate_init}
use panthalassa.Chat.Receive.{receive_init, receive_from, handle_received_message}

module _ (S : Signing) (km : KeyManager) where
  authenticate_sound :
      (m : ChatMessage) (checked : RatchetMessage × Bytes)
      → authenticate S km m ≡ ok checked
      → (length m.sender ≡ 32) × (identity_public_key km ≢ ok (hex_encode m.sender))
  unfolding authenticate
  authenticate_sound m checked h = elim (Result-cases (identity_public_key km)) [
    | inr (e, i) ↦ absurd (ground arith)
    | inl (text, i) ↦ elim (Bool-cases (bytes_beq text (hex_encode m.sender))) [
      | inl own ↦ absurd (ground arith)
      | inr other ↦ elim (Bool-cases (nat_beq (length m.sender) 32)) [
        | inr short ↦ absurd (ground arith)
        | inl fits ↦ (ground arith, ground (arith, bytes_beq_iff text (hex_encode m.sender)))
      ]
    ]
  ]

  -- Two signatures of the sender.
  authenticate_init_sound :
      (m : ChatMessage) (ephemeral_key signed_pre_key : Bytes)
      → authenticate_init S km m ephemeral_key signed_pre_key ≡ ok tt
      → (S.verify m.sender ephemeral_key m.ephemeral_key_signature ≡ true)
        × (S.verify m.sender m.sender_chat_id_key m.sender_chat_id_key_signature ≡ true)
  unfolding authenticate_init signed_by ed25519_verify
  authenticate_init_sound m ephemeral_key signed_pre_key h =
      elim (Bool-cases (nat_beq (length m.sender) 32)) [
        | inr short ↦ absurd (ground arith)
        | inl fits ↦ ground arith
      ]

module _ (S : Signing) (X : Storages) (P : Protocols) (km : KeyManager) where
  authenticated :
      (random : Random X) (m : ChatMessage) (s t : State X P)
      → handle_received_message S X P km random m s ≡ (ok tt, t)
      → (checked : RatchetMessage × Bytes) × (authenticate S km m ≡ ok checked)
        × (receive_from S X P km random m checked.0 checked.1 m.ephemeral_key m.signed_pre_key s
            ≡ (ok tt, t))
  unfolding handle_received_message
  authenticated random m s t h = elim (Result-cases (authenticate S km m)) [
    | inr (e, a) ↦ absurd (ground arith)
    | inl (checked, a) ↦ (checked, a, ground arith)
  ]

  -- A message that is handled without an error is from another account, whose key has 32 bytes.
  pub handle_received_message_sound :
      (random : Random X) (m : ChatMessage) (s t : State X P)
      → handle_received_message S X P km random m s ≡ (ok tt, t)
      → (length m.sender ≡ 32) × (identity_public_key km ≢ ok (hex_encode m.sender))
  handle_received_message_sound random m s t h =
      let (checked, a, r) = authenticated random m s t h in authenticate_sound S km m checked a

  -- A chat initialization that is handled without an error carries signatures of its sender.
  pub handle_init_sound :
      (random : Random X) (m : ChatMessage) (s t : State X P) (ephemeral_key signed_pre_key : Bytes)
      → m.ephemeral_key ≡ some ephemeral_key
      → m.signed_pre_key ≡ some signed_pre_key
      → handle_received_message S X P km random m s ≡ (ok tt, t)
      → (S.verify m.sender ephemeral_key m.ephemeral_key_signature ≡ true)
        × (S.verify m.sender m.sender_chat_id_key m.sender_chat_id_key_signature ≡ true)
  unfolding receive_from receive_init
  handle_init_sound random m s t ephemeral_key signed_pre_key he hs h =
      let (checked, a, r) = authenticated random m s t h in
      elim (Result-cases (authenticate_init S km m ephemeral_key signed_pre_key)) [
        | inr (e, i) ↦ absurd (ground arith)
        | inl (u, i) ↦ authenticate_init_sound S km m ephemeral_key signed_pre_key i
      ]

  -- A chat initialization in which the sender's signature of the ephemeral key or of the chat
  -- identity key does not verify is refused with an error, and leaves every storage as it was.
  pub handle_forged :
      (random : Random X) (m : ChatMessage) (s : State X P) (ephemeral_key signed_pre_key : Bytes)
      → m.ephemeral_key ≡ some ephemeral_key
      → m.signed_pre_key ≡ some signed_pre_key
      → (S.verify m.sender ephemeral_key m.ephemeral_key_signature ≡ false)
        ⊎ (S.verify m.sender m.sender_chat_id_key m.sender_chat_id_key_signature ≡ false)
      → (e : ChatError) × (handle_received_message S X P km random m s ≡ (err e, s))
  unfolding handle_received_message receive_from receive_init
  handle_forged random m s ephemeral_key signed_pre_key he hs forged =
      elim (Result-cases (authenticate S km m)) [
        | inr (e, a) ↦ (e, ground arith)
        | inl (checked, a) ↦
            elim (Result-cases (authenticate_init S km m ephemeral_key signed_pre_key)) [
              | inr (e, i) ↦ (e, ground arith)
              | inl (u, i) ↦
                  let (v, w) = authenticate_init_sound S km m ephemeral_key signed_pre_key i in
                  absurd (ground arith)
            ]
      ]
