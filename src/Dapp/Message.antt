-- ===== src/Dapp/Message.antt =====
-- dapp/module/message/message.go: the function of the VM with which a DApp stores a message in a chat.
-- What it does is a list of effects, as in Dapp.Database. The job that it gives to the limiter is kept
-- under a number until the limiter starts it. That the callback itself throws is only logged, and
-- left out.
pub mod Stored
use panthalassa.Base.{
  ℕ, Bool, true, false, none, some, List, [], ◌∷◌, ◌++◌, Option, Bytes, Assoc, insert, nat_eq,
  bytes_eq, contains, length, leb, nat_beq, if◌then◌else◌, Result, ok, err, ◌>>=◌, ◌>>◌, guard,
  map_err, HexError, hex_decode,
}
use panthalassa.Bolt.{Transactions, Buckets, Nested}
use panthalassa.Crypto.Aes.{AesError}
use panthalassa.Db.Vault.{Vault, DbError}
use panthalassa.Db.Message.{DappMessage}
use panthalassa.Db.ChatMessages.{MessageJson, PersistedEvent, persist_dapp_message}
use panthalassa.Limits.CountThrottling.{Throttle, exec}
use panthalassa.Dapp.Validator.{
  Otto, ValidationError, CallValidator, ObjValidator, argument, set, set_key, validate,
  validate_object, type_string, type_object, type_function, obj_type_bool, obj_type_object,
  obj_type_string,
}

pub data SendError : Type 0 where
  validation : ValidationError → SendError
  chat_text : HexError → SendError
  chat_not_32_bytes params_too_big : SendError
  vm : ℕ → SendError
  storage : DbError → SendError

-- What the VM and `encoding/json` make of the parameters of a message. `reread` reads the JSON form
-- again and gives the text that is stored, and `no_params` is that of no parameters.
pub record ParamsJson (O : Otto) : Type 1 where
  pub Exported : Type 0
  pub to_boolean : O.Value → Result ℕ Bool
  pub export : O.Value → Result ℕ Exported
  pub marshal : List (Bytes × Exported) → Result ℕ Bytes
  pub reread : Bytes → Result ℕ Bytes
  pub no_params : Bytes

abbrev pub key_should_send : Bytes
key_should_send = b's' ∷ b'h' ∷ b'o' ∷ b'u' ∷ b'l' ∷ b'd' ∷ b'S' ∷ b'e' ∷ b'n' ∷ b'd' ∷ []

abbrev pub key_params : Bytes
key_params = b'p' ∷ b'a' ∷ b'r' ∷ b'a' ∷ b'm' ∷ b's' ∷ []

abbrev pub key_type : Bytes
key_type = b't' ∷ b'y' ∷ b'p' ∷ b'e' ∷ []

pub data Effect : Type 0 where
  called_error : SendError → Effect
  called decreased : Effect
  logged : SendError → Effect

-- A message and the chat that it is for.
abbrev pub Job : Type 0
Job = Bytes × DappMessage

-- The limiter, and the jobs that it was given.
pub record Sending : Type 0 where
  pub req_lim : Throttle
  pub jobs : Assoc ℕ Job

module _ (O : Otto) where
  unfoldable pub handle_error : SendError → O.Value → List Effect
  handle_error e cb = if O.is_function cb then called_error e ∷ [] else logged e ∷ []

  unfoldable pub call_rules : CallValidator O
  unfolding set type_string type_object type_function
  call_rules = set O 2 (type_function O) (set O 1 (type_object O) (set O 0 (type_string O) []))

  unfoldable pub payload_rules : ObjValidator O
  unfolding set_key obj_type_bool obj_type_object obj_type_string
  payload_rules = set_key O key_type (obj_type_string O) false (
      set_key O key_params (obj_type_object O) false
        (set_key O key_should_send (obj_type_bool O) true []))

  module _ (P : ParamsJson O) (dapp : Bytes) where
    unfoldable pub read_chat : Bytes → Result SendError Bytes
    read_chat text = do
      chat ← map_err chat_text (hex_decode text)
      guard (nat_beq (length chat) 32) chat_not_32_bytes
      ok chat

    unfoldable pub read_type : O.Value → Result SendError Bytes
    read_type payload =
        let found = map_err vm (O.get payload key_type) in
        if contains key_type (O.keys payload) then (found >>= λ v. ok (O.text v)) else ok []

    -- The error of `Get` is overwritten: the value is undefined then.
    unfoldable pub get_or_undefined : O.Value → Bytes → O.Value
    get_or_undefined params key = elim (O.get params key) [ ok v ↦ v | err e ↦ O.undefined ]

    unfoldable pub export_params :
        O.Value → List Bytes → Result SendError (List (Bytes × P.Exported))
    unfolding get_or_undefined
    export_params params [] = ok []
    export_params params (key ∷ keys) = do
      value ← map_err vm (P.export (get_or_undefined params key))
      values ← export_params params keys
      ok ((key, value) ∷ values)

    -- The JSON form of the parameters, which has at most 64 KB.
    unfoldable pub marshal_params : O.Value → Result SendError Bytes
    unfolding export_params
    marshal_params params = do
      exported ← export_params params (O.keys params)
      marshalled ← map_err vm (P.marshal exported)
      guard (leb (length marshalled) 65536) params_too_big
      ok marshalled

    unfoldable pub read_params : O.Value → Result SendError Bytes
    unfolding marshal_params
    read_params payload =
        let found = do
          params ← map_err vm (O.get payload key_params)
          marshalled ← marshal_params params
          map_err vm (P.reread marshalled)
        in if contains key_params (O.keys payload) then found else ok P.no_params

    -- "sendMessage" up to the limiter: the chat and the message.
    unfoldable pub read_call : List O.Value → Result SendError Job
    unfolding argument call_rules payload_rules read_chat read_type read_params
    read_call call = do
      map_err validation (validate O call_rules call)
      let payload = argument O call 1
      map_err validation (validate_object O payload_rules payload)
      chat ← read_chat (O.text (argument O call 0))
      value ← map_err vm (O.get payload key_should_send)
      should_send ← map_err vm (P.to_boolean value)
      type ← read_type payload
      params ← read_params payload
      ok (
        chat,
        record { dapp_public_key = dapp; type = type; params = params; should_send = should_send },
      )

    -- The answer of the limiter is not looked at. A job that it refuses is never started.
    unfoldable pub submit : ℕ → Job → Sending → Sending
    submit n job s =
        let (refused, t) = exec n s.req_lim in
        elim refused [
          | some e ↦ record s { req_lim = t }
          | none ↦ record { req_lim = t; jobs = insert n job s.jobs }
        ]

    -- "sendMessage"
    unfoldable pub send_message : ℕ → List O.Value → Sending → List Effect × Sending
    unfolding read_call submit handle_error argument
    send_message n call s = elim (read_call call) [
      | err e ↦ (handle_error e (argument O call 2), s)
      | ok job ↦ ([], submit n job s)
    ]

    module _ (T : Transactions DbError) (B : Buckets DbError) (N : Nested DbError B.Bucket B.empty)
        (V : Vault) (J : MessageJson) where
      -- There is no return behind the error. The limiter is decreased when the job ends.
      unfoldable pub job_effects : Result DbError PersistedEvent → O.Value → List Effect
      unfolding handle_error
      job_effects (ok e) cb = called ∷ decreased ∷ []
      job_effects (err e) cb = handle_error (storage e) cb ++ (called ∷ decreased ∷ [])

      -- The job, when the limiter starts it.
      unfoldable pub run_job :
          Result DbError Bytes
          → ℕ
          → Result AesError Bytes
          → Job
          → O.Value
          → Option N.Outer
          → List Effect × Option N.Outer
      unfolding job_effects
      run_job uuid now random (chat, msg) cb s =
          let done = persist_dapp_message T B N V J uuid now random chat msg s in
          (job_effects done.0 cb, done.1)
