-- ===== src/Backend.antt =====
-- backend: the messages that go to and come from the chat backend. The transport and the handlers
-- are parameters; a response channel is a number.
pub mod Stack
pub mod Refinement
pub mod Dispatch
pub mod Answers
pub mod Client
use panthalassa.Base.{Option, Bytes, Result}

-- `BackendMessage` of the protobuf package; the text of no error is empty.
pub record BackendMessage (Req Resp : Type 0) : Type 0 where
  pub request_id : Bytes
  pub request : Option Req
  pub response : Option Resp
  pub error : Bytes

-- A handler of the requests, with the state that the handlers share: no response means that the
-- request is not its own. The error is its text.
abbrev pub Handler : Type 0 → Type 0 → Type 0 → Type 0
Handler Req Resp H = Req → H → Result Bytes (Option Resp) × H
