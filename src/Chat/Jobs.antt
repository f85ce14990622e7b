-- ===== src/Chat/Jobs.antt =====
-- chat/queue_processor.go and the listener of chat/handler.go: a message that is to be sent becomes
-- a job of the queue, which the processor takes back to the message. What a job holds is a map of
-- values of some of Go's types; base64 and the numbers of encoding/json are parameters. An int64 of a
-- job is a time, so that it is not negative.
pub mod Valid
use panthalassa.Base.{
  ℕ, String, Bool, not, Option, none, some, [], ◌∷◌, List, ◌++◌, Bytes, Assoc, lookup, string_eq,
  ◌==◌, length, nat_beq, Result, ok, err, ◌>>=◌, ◌>>◌, guard, map_err, if◌then◌else◌,
}
use panthalassa.Db.Vault.{DbError}
use panthalassa.Db.Message.{Message, DappMessage, status_persisted}
use panthalassa.Db.ChatMessages.{PersistedEvent}
use panthalassa.Queue.{Job}
use panthalassa.Chat.{
  ChatError, invalid_job_type, missing_message_id, missing_partner, invalid_value, zero_message_id,
  invalid_partner, missing_message, db, foreign,
}

-- The types that the processor tells apart.
pub data Value : Type 0 where
  number text : Bytes → Value
  int64 : ℕ → Value
  public_key : Bytes → Value
  other : Value

abbrev pub JobData : Type 0
JobData = Assoc String Value

pub record JobFormats : Type 0 where
  pub parse_int64 : Bytes → Result ℕ ℕ
  pub base64_decode : Bytes → Result ℕ Bytes
  pub dapp_json : DappMessage → Result ℕ Bytes

abbrev pub submit_type : String
submit_type = "MESSAGE:SUBMIT"

abbrev pub db_message_id : String
db_message_id = "db_message_id"

abbrev pub partner_key : String
partner_key = "partner"

module _ (F : JobFormats) where
  unfoldable pub read_message_id : Option Value → Result ChatError ℕ
  read_message_id none = err missing_message_id
  read_message_id (some (number n)) = map_err foreign (F.parse_int64 n)
  read_message_id (some (int64 n)) = ok n
  read_message_id (some _) = err invalid_value

  unfoldable pub read_partner : Option Value → Result ChatError Bytes
  read_partner none = err missing_partner
  read_partner (some (text t)) = map_err foreign (F.base64_decode t)
  read_partner (some (public_key k)) = ok k
  read_partner (some _) = err invalid_value

  -- `jobToData`
  unfoldable pub job_to_data : Job JobData → Result ChatError (Bytes × ℕ)
  unfolding read_message_id read_partner
  job_to_data j = do
    message_id ← read_message_id (lookup db_message_id j.payload)
    guard (not (nat_beq message_id 0)) zero_message_id
    partner ← read_partner (lookup partner_key j.payload)
    guard (nat_beq (length partner) 32) invalid_partner
    ok (partner, message_id)

  unfoldable pub valid_job : Job JobData → Result ChatError (Unit {0})
  unfolding job_to_data
  valid_job j = do guard (submit_type == j.type) invalid_job_type; found ← job_to_data j; ok tt

  -- The message of a job: what is fetched is what `GetMessage` finds.
  unfoldable pub message_of :
      (Bytes → ℕ → Result DbError (Option Message))
      → Job JobData
      → Result ChatError (Bytes × Message)
  unfolding job_to_data
  message_of get_message j = do
    guard (submit_type == j.type) invalid_job_type
    found ← job_to_data j
    stored ← map_err db (get_message found.0 found.1)
    elim stored [ none ↦ err missing_message | some m ↦ ok (found.0, m) ]

  -- `Process`, over the state of the chat and of the queue: `send` is `SendMessage`, `delete` is
  -- `DeleteJob`.
  module _ {S : Type 0} (send : Bytes → Message → S → Result ChatError (Unit {0}) × S)
      (delete : Job JobData → S → Result ChatError (Unit {0}) × S) where
    unfoldable pub send_then_delete :
        Job JobData → Bytes × Message → S → Result ChatError (Unit {0}) × S
    send_then_delete j (partner, m) s = elim (send partner m s).0 [
      | err e ↦ (err e, (send partner m s).1)
      | ok u ↦ delete j (send partner m s).1
    ]

    unfoldable pub process :
        (Bytes → ℕ → Result DbError (Option Message))
        → Job JobData
        → S
        → Result ChatError (Unit {0}) × S
    unfolding message_of send_then_delete
    process get_message j s = elim (message_of get_message j) [
      | err e ↦ (err e, s)
      | ok found ↦ send_then_delete j found s
    ]

  -- What is sent to the app.
  pub record UiEvent : Type 0 where
    pub name : String
    pub event : PersistedEvent
    pub dapp : Bytes

  -- The DApp message as JSON; an error is logged.
  unfoldable pub dapp_text : Option DappMessage → Bytes
  dapp_text none = []
  dapp_text (some d) = elim (F.dapp_json d) [ ok bytes ↦ bytes | err e ↦ [] ]

  unfoldable pub ui_event : String → Bool → PersistedEvent → List UiEvent
  unfolding dapp_text
  ui_event name sent e =
      if sent then record { name = name; event = e; dapp = dapp_text e.message.dapp } ∷ [] else []

  -- The job of a message that was not received; `id` is what the packages uuid or time give.
  unfoldable pub job_for : String → PersistedEvent → Job JobData
  job_for id e = record {
    id = id;
    type = submit_type;
    payload = (partner_key, public_key e.partner) ∷ (db_message_id, int64 e.db_message_id) ∷ [];
  }

  -- `handlePersistedMessage`: the job that is added, where there is one, and the events for the app.
  unfoldable pub handle_persisted_message :
      String → PersistedEvent → Option (Job JobData) × List UiEvent
  unfolding ui_event job_for
  handle_persisted_message id e = (
    if e.message.received then none else some (job_for id e),
    ui_event "MESSAGE:PERSISTED" (nat_beq e.message.status status_persisted) e
        ++ (ui_event "MESSAGE:DELIVERED" (nat_beq e.message.status 300) e
            ++ ui_event "MESSAGE:RECEIVED" e.message.received e),
  )
