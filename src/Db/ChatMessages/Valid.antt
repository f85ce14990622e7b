-- ===== src/Db/ChatMessages/Valid.antt =====
-- What `ValidMessage` accepts.
use panthalassa.Base.{◌^◌, ◌<◌, ◌≡◌, ◌⊎◌, ◌↔◌, Option, none, some, length, arith, ok}
use panthalassa.Db.Message.{DappMessage, Message, valid_message}

-- A message has an id and a version, a registered status, a time after 2147483647 that is no
-- negative `int64`, and either a text and a sender of 32 bytes or a DApp with a key of 32 bytes.
abbrev pub HasContent : Option DappMessage → Message → Type 0
HasContent none m = (0 < length m.message) × (length m.sender ≡ 32)
HasContent (some d) m = length d.dapp_public_key ≡ 32

pub record IsValid (m : Message) : Type 0 where
  pub has_id : 0 < length m.id
  pub has_version : 0 < m.version
  pub has_status :
      (m.status ≡ 100)
      ⊎ ((m.status ≡ 200) ⊎ ((m.status ≡ 300) ⊎ ((m.status ≡ 400) ⊎ (m.status ≡ 500))))
  pub late : 2147483647 < m.created_at
  pub positive : m.created_at < 2 ^ 63
  pub content : HasContent m.dapp m

valid_message_sound : (m : Message) → valid_message m ≡ ok tt → IsValid m
unfolding valid_message
valid_message_sound m h = ground arith

valid_message_complete : (m : Message) → IsValid m → valid_message m ≡ ok tt
unfolding valid_message
valid_message_complete m h = ground arith

-- `ValidMessage` accepts exactly the valid messages.
pub valid_message_iff : (m : Message) → (valid_message m ≡ ok tt) ↔ IsValid m
valid_message_iff m = (valid_message_sound m, valid_message_complete m)
