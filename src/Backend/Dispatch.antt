-- ===== src/Backend/Dispatch.antt =====
-- backend/backend.go: what the reading loop does with one message.
use panthalassa.Base.{
  ℕ, Bool, true, false, Option, none, some, List, [], ◌∷◌, Bytes, length, nat_beq, ok, err,
  if◌then◌else◌,
}
use panthalassa.Backend.{BackendMessage, Handler}
use panthalassa.Backend.Stack.{RequestStack, cut}

-- What is sent on a response channel.
pub data Delivery (Resp : Type 0) : Type 0 where
  failed : Bytes → Delivery Resp
  answered : Option Resp → Delivery Resp

-- How the loop goes on: with the next message, with the next message once the delivery was taken, or
-- not at all, since a send on a nil channel blocks for ever.
pub data Outcome (Resp : Type 0) : Type 0 where
  continues blocked : Outcome Resp
  delivers : ℕ → Delivery Resp → Outcome Resp

module _ {Req Resp : Type 0} where
  unfoldable pub error_message : Bytes → Bytes → BackendMessage Req Resp
  error_message id text = record { request_id = id; request = none; response = none; error = text }

  unfoldable pub response_message : Bytes → Resp → BackendMessage Req Resp
  response_message id resp = record {
    request_id = id;
    request = none;
    response = some resp;
    error = [];
  }

  -- The branch of a response.
  unfoldable pub deliver : BackendMessage Req Resp → RequestStack → Outcome Resp × RequestStack
  unfolding cut
  deliver m s = elim (cut m.request_id s).0 [
    | none ↦ (blocked, (cut m.request_id s).1)
    | some channel ↦ (
      delivers channel (if nat_beq (length m.error) 0 then answered m.response else failed m.error),
      (cut m.request_id s).1,
    )
  ]

module _ {Req Resp H : Type 0} where
  -- The loop over the handlers: what is sent, in order, and the flag `requestHandled`. An error of
  -- the transport is logged, and changes neither.
  unfoldable pub run_handlers :
      Bytes → Req → List (Handler Req Resp H) → H → List (BackendMessage Req Resp) × (Bool × H)
  unfolding error_message response_message
  run_handlers id req [] h = ([], (false, h))
  run_handlers id req (handler ∷ rest) h =
      let r = handler req h in
      let more = run_handlers id req rest r.1 in
      elim r.0 [
        | err text ↦ (error_message id text ∷ more.0, more.1)
        | ok none ↦ more
        | ok (some resp) ↦ (response_message id resp ∷ more.0, (true, more.1.1))
      ]

  -- One round of the loop: the messages that are sent, how the loop goes on, and the states after.
  unfoldable pub read_message :
      List (Handler Req Resp H)
      → BackendMessage Req Resp
      → H
      → RequestStack
      → List (BackendMessage Req Resp) × (Outcome Resp × (H × RequestStack))
  unfolding run_handlers deliver
  read_message handlers m h s = elim m.request [
    | none ↦ ([], ((deliver m s).0, (h, (deliver m s).1)))
    | some req ↦ elim m.response [
      | some resp ↦ ([], (continues, (h, s)))
      | none ↦ let r = run_handlers m.request_id req handlers h in (r.0, (continues, (r.1.1, s)))
    ]
  ]
