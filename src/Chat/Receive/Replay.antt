-- ===== src/Chat/Receive/Replay.antt =====
-- A message that comes again.
use panthalassa.Base.{
  ◌≡◌, inl, inr, true, false, some, arith, length, nat_beq, Result, ok, Result-cases, Bool-cases,
}
use panthalassa.KeyManager.{KeyManager}
use panthalassa.Identity.{Signing}
use panthalassa.Db.Message.{Message}
use panthalassa.Db.SharedSecrets.{SharedSecret}
use panthalassa.Chat.{ChatMessage, RatchetMessage, PlainChatMessage, ChatError, Protocols}
use panthalassa.Chat.Storages.{Storages, Random, State, on_messages}
use panthalassa.Chat.Plain.{proto_plain_msg_to_message}
use panthalassa.Chat.Checks.{decrypt_with_first, found_secret}
use panthalassa.Chat.Receive.{persist_plain, accept_secret, receive_later}

module _ (S : Signing) (X : Storages) (P : Protocols) (km : KeyManager) where
  -- A message under a secret that was accepted earlier.
  module _ (m : ChatMessage) (ratchet : RatchetMessage) (ss : SharedSecret) where
    -- The storage of the message, from the sender.
    unfoldable pub stored_as :
        Message → Random X → State X P → Result ChatError (Unit {0}) × State X P
    stored_as message random =
        on_messages X P
          (X.persist_received random.for_message m.sender (record message { sender = m.sender }))

    later_stored :
        (random : Random X) (s : State X P) (plain : PlainChatMessage) (message : Message)
        → ss.accepted ≡ true
        → nat_beq (length m.used_shared_secret) 0 ≡ false
        → X.get_secret m.sender m.used_shared_secret s.secrets ≡ ok (some ss)
        → decrypt_with_first P ratchet ss.x3dh_ss (X.all_signed_pre_keys s.signed_keys) ≡ ok plain
        → proto_plain_msg_to_message S P plain ≡ ok message
        → receive_later S X P km random m ratchet s ≡ stored_as message random s
    unfolding receive_later persist_plain accept_secret found_secret stored_as
    later_stored random s plain message ha hn hg hd hp =
        let kept =
          X.persist_received random.for_message m.sender (record message { sender = m.sender })
            s.messages in
        elim (Result-cases kept.0) [ inr (e, r) ↦ ground arith | inl (tt, r) ↦ ground arith ]

    later_parts :
        (random : Random X) (s t : State X P)
        → X.get_secret m.sender m.used_shared_secret s.secrets ≡ ok (some ss)
        → receive_later S X P km random m ratchet s ≡ (ok tt, t)
        → (plain : PlainChatMessage) × (message : Message) × (nat_beq
              (length m.used_shared_secret)
              0
            ≡ false)
          × (decrypt_with_first P ratchet ss.x3dh_ss (X.all_signed_pre_keys s.signed_keys)
              ≡ ok plain)
          × (proto_plain_msg_to_message S P plain ≡ ok message)
    unfolding receive_later persist_plain found_secret
    later_parts random s t g h = elim (Bool-cases (nat_beq (length m.used_shared_secret) 0)) [
      | inl empty ↦ absurd (ground arith)
      | inr named ↦
          elim (Result-cases
            (decrypt_with_first P ratchet ss.x3dh_ss (X.all_signed_pre_keys s.signed_keys))) [
              | inr (e, d) ↦ absurd (ground arith)
              | inl (plain, d) ↦ elim (Result-cases (proto_plain_msg_to_message S P plain)) [
                | inr (e, p) ↦ absurd (ground arith)
                | inl (message, p) ↦ (plain, message, named, d, p)
              ]
            ]
    ]

    -- A message under an accepted secret that was handled without an error is, when it comes
    -- again, not recognized: the same message of the database is stored once more.
    pub receive_later_again :
        (random again : Random X) (s t : State X P)
        → ss.accepted ≡ true
        → X.get_secret m.sender m.used_shared_secret s.secrets ≡ ok (some ss)
        → receive_later S X P km random m ratchet s ≡ (ok tt, t)
        → (message : Message) × (stored_as message random s ≡ (ok tt, t))
          × (receive_later S X P km again m ratchet t ≡ stored_as message again t)
    receive_later_again random again s t ha g h =
        let (plain, message, named, d, p) = later_parts random s t g h in
        let first = later_stored random s plain message ha named g d p in
        let done : stored_as message random s ≡ (ok tt, t) = ground arith in
        (
          message,
          done,
          later_stored again t plain message ha named (unfold stored_as in ground arith)
              (unfold stored_as in ground arith) p,
        )
