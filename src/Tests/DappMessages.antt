-- ===== src/Tests/DappMessages.antt =====
-- Tests of the messages that DApps store.
use panthalassa.Base.{
  ℕ, ◌≡◌, refl, Bool, true, false, ◌&&◌, not, Option, none, some, List, [], ◌∷◌, arith, Bytes,
  IsBytes, replicate, length, nat_beq, bytes_beq, bytes_beq_iff, bytes_eq, Result, ok, err,
  Bool-cases, inl, inr, if◌then◌else◌, hex_decode, lookup, insert, put_uint64, uint64,
}
use panthalassa.Db.Vault.{DbError, seal}
use panthalassa.Db.Message.{DappMessage, Message, valid_message}
use panthalassa.Db.ChatMessages.{
  MessageJson, get_message, persist_dapp_message, persist_message, persist_update, find_key,
}
use panthalassa.Tests.Models.{
  transactions, buckets, nested, Chats, run_update, create_chat, put_pair,
}
use panthalassa.Tests.Texts.{plain_vault, plain_encrypt, plain_marshal}
use panthalassa.Dapp.Validator.{Otto, argument}
use panthalassa.Dapp.Message.{ParamsJson, read_call, run_job, called, decreased, key_should_send}
use panthalassa.Dapp.Message.Stored.{get_message-run_job}

-- Some values of the VM: the payload has the key "shouldSend".
pub data Js : Type 0 where
  undefined callback payload yes : Js
  text : Bytes → Js

unfoldable pub is_text : Js → Bool
is_text (text b) = true
is_text other = false

unfoldable pub is_callback : Js → Bool
is_callback callback = true
is_callback other = false

unfoldable pub is_payload : Js → Bool
is_payload payload = true
is_payload other = false

unfoldable pub is_yes : Js → Bool
is_yes yes = true
is_yes other = false

unfoldable pub text_of : Js → Bytes
text_of (text b) = b
text_of other = []

abbrev pub js : Otto
js = record {
  Value = Js;
  undefined = undefined;
  is_function = is_callback;
  is_number = λ v. false;
  is_string = is_text;
  is_object = is_payload;
  is_boolean = is_yes;
  text = text_of;
  keys = λ v. key_should_send ∷ [];
  get = λ v key. ok yes;
  is_hex_address = λ b. false;
}

abbrev params : ParamsJson js
params = record {
  Exported = Js;
  to_boolean = λ v. ok true;
  export = λ v. ok v;
  marshal = λ values. ok [];
  reread = λ raw. ok raw;
  no_params = [];
}

abbrev dapp : Bytes
dapp = replicate 32 1

abbrev chat : Bytes
chat = replicate 32 0

abbrev posted : DappMessage
posted = record { dapp_public_key = dapp; type = []; params = []; should_send = true }

abbrev stored : Message
stored = record {
  id = 7 ∷ [];
  version = 1;
  status = 500;
  received = false;
  dapp = some posted;
  message = [];
  created_at = 3000000000;
  sender = [];
  database_id = 3000000000;
}

unfoldable is_posted : Option DappMessage → Bool
is_posted none = false
is_posted (some d) =
    bytes_beq d.dapp_public_key dapp
    && (nat_beq (length d.type) 0 && (nat_beq (length d.params) 0 && d.should_send))

length_zero : (b : Bytes) → length b ≡ 0 → b ≡ []
length_zero [] h = refl
length_zero (x ∷ b) h = absurd (ground arith)

is_posted_sound : (d : Option DappMessage) → is_posted d ≡ true → d ≡ some posted
unfolding is_posted
is_posted_sound none h = absurd (ground arith)
is_posted_sound (some d) h =
    ground (arith, bytes_beq_iff d.dapp_public_key dapp, length_zero d.type, length_zero d.params)

unfoldable is_stored : Message → Bool
unfolding is_posted
is_stored m =
    bytes_beq m.id (7 ∷ [])
    && (nat_beq m.version 1
        && (nat_beq m.status 500
            && (not m.received
                && (is_posted m.dapp
                    && (nat_beq (length m.message) 0
                        && (nat_beq m.created_at 3000000000
                            && (nat_beq (length m.sender) 0
                                && nat_beq m.database_id 3000000000)))))))

is_stored_sound : (m : Message) → is_stored m ≡ true → stored ≡ m
unfolding is_stored
is_stored_sound m h = ground (
  arith,
  bytes_beq_iff m.id (7 ∷ []),
  is_posted_sound m.dapp,
  length_zero m.message,
  length_zero m.sender,
)

unfoldable marshal : Message → Result ℕ Bytes
unfolding is_stored
marshal m = if is_stored m then ok (1 ∷ []) else err 0

marshal_bytes : (m : Message) (raw : Bytes) → marshal m ≡ ok raw → IsBytes raw
unfolding marshal
marshal_bytes m raw h = elim (Bool-cases (is_stored m)) [
  | inl t ↦ let e : raw ≡ 1 ∷ [] = ground arith in rw e (omega arith, tt)
  | inr f ↦ ground arith
]

marshal_lem :
    (m : Message) (raw : Bytes)
    → marshal m ≡ ok raw
    → (let r : Result ℕ Message = ok stored in r) ≡ ok m
unfolding marshal
marshal_lem m raw h = ground (arith, is_stored_sound m)

abbrev message_json : MessageJson
message_json = record {
  marshal = marshal;
  unmarshal = λ raw. ok stored;
  marshal_bytes = marshal_bytes;
  unmarshal-marshal = marshal_lem;
}

abbrev call : List Js
call = text (replicate 64 48) ∷ payload ∷ callback ∷ []

abbrev chats : Option Chats
chats = some ((chat, (0 ∷ 0 ∷ 0 ∷ 0 ∷ 178 ∷ 208 ∷ 94 ∷ 0 ∷ [], 1 ∷ []) ∷ []) ∷ [])

accepted : read_call js params dapp call ≡ ok (chat, posted)
unfolding read_call panthalassa.Dapp.Validator.validate insert lookup is_text is_payload is_callback
    panthalassa.Dapp.Validator.validate_object bytes_beq panthalassa.Base.contains is_yes hex_decode
    text_of
accepted = refl

finished :
    run_job js params dapp
      (transactions DbError)
      buckets
      nested
      plain_vault
      message_json
      (ok (7 ∷ []))
      3000000000
      (ok [])
      (chat, posted)
      callback
      none
    ≡ (called ∷ decreased ∷ [], chats)
unfolding run_job persist_dapp_message persist_message persist_update valid_message run_update
    create_chat lookup marshal uint64 find_key insert put_uint64 seal plain_encrypt plain_marshal
    put_pair bytes_beq
finished = refl

get_message-run_job_example :
    (hex_decode (text_of (argument js call 0)) ≡ ok chat)
    × (length chat ≡ 32)
    × (dapp ≡ dapp)
    × ((id : ℕ) × (m : Message) × (m.dapp ≡ some posted)
        × (get_message (transactions DbError) buckets nested plain_vault message_json chat id chats
            ≡ ok (some m)))
unfolding argument
get_message-run_job_example =
    get_message-run_job js params dapp (transactions DbError) buckets nested plain_vault
      message_json (ok (7 ∷ [])) 3000000000 (ok []) call chat posted none chats (omega arith)
      accepted finished
