-- ===== src/Backend/Answers.antt =====
-- How often a request is answered, and where a response goes.
use panthalassa.Base.{
  lookup-insert_self, lookup-remove_self, remove, ℕ, ◌≡◌, refl, inl, inr, Option, none, some, List,
  [], ◌∷◌, arith, Bytes, lookup, remove, bytes_eq, Result, ok, err, Result-cases,
}
use panthalassa.Backend.{BackendMessage, Handler}
use panthalassa.Backend.Stack.{RequestStack, add, cut}
use panthalassa.Backend.Dispatch.{
  answered, continues, blocked, delivers, error_message, response_message, run_handlers, deliver,
  read_message,
}

module _ {Req Resp : Type 0} where
  -- The messages for what the handlers returned: one for each error and for each response.
  unfoldable pub messages_for :
      Bytes → List (Result Bytes (Option Resp)) → List (BackendMessage Req Resp)
  unfolding error_message response_message
  messages_for id [] = []
  messages_for id (err text ∷ rest) = error_message id text ∷ messages_for id rest
  messages_for id (ok none ∷ rest) = messages_for id rest
  messages_for id (ok (some resp) ∷ rest) = response_message id resp ∷ messages_for id rest

  deliver_waiting :
      (m : BackendMessage Req Resp) (s : RequestStack) (channel : ℕ)
      → lookup m.request_id s ≡ some channel
      → m.error ≡ []
      → deliver m s ≡ (delivers channel (answered m.response), remove m.request_id s)
  unfolding deliver cut
  deliver_waiting m s channel h he = ground arith

  deliver_unknown :
      (m : BackendMessage Req Resp) (s : RequestStack)
      → lookup m.request_id s ≡ none
      → (deliver m s).0 ≡ blocked
  unfolding deliver cut
  deliver_unknown m s h = ground arith

module _ {Req Resp H : Type 0} where
  -- What each handler returns, in turn.
  unfoldable pub answers : Req → List (Handler Req Resp H) → H → List (Result Bytes (Option Resp))
  answers req [] h = []
  answers req (handler ∷ rest) h = let r = handler req h in r.0 ∷ answers req rest r.1

  run_handlers_sent :
      (id : Bytes) (req : Req) (handlers : List (Handler Req Resp H)) (h : H)
      → (run_handlers id req handlers h).0 ≡ messages_for id (answers req handlers h)
  unfolding run_handlers answers messages_for
  run_handlers_sent id req [] h = refl
  run_handlers_sent id req (handler ∷ rest) h =
      let more = run_handlers_sent id req rest (handler req h).1 in
      elim (Result-cases (handler req h).0) [
        | inr (text, e) ↦ ground arith
        | inl (none, e) ↦ ground arith
        | inl (some resp, e) ↦ ground arith
      ]

  -- A request is answered once by every handler that returns an error or a response, in the order of
  -- the handlers, under its own id; the loop goes on and no waiting request is touched.
  pub read_message_sent :
      (handlers : List (Handler Req Resp H)) (m : BackendMessage Req Resp) (req : Req) (h : H)
      (s : RequestStack)
      → m.request ≡ some req
      → m.response ≡ none
      → ((read_message handlers m h s).0 ≡ messages_for m.request_id (answers req handlers h))
        × ((read_message handlers m h s).1.0 ≡ continues)
        × ((read_message handlers m h s).1.1.1 ≡ s)
  unfolding read_message
  read_message_sent handlers m req h s hq hr =
      (ground (arith, run_handlers_sent m.request_id req handlers h), ground arith, ground arith)

  -- A response without an error text goes to the channel that was added last under its id, which
  -- is then not waiting any more; the same response again finds a nil channel, and its send
  -- blocks the reading loop for ever.
  pub read_message_response :
      (handlers : List (Handler Req Resp H)) (m : BackendMessage Req Resp) (h : H)
      (s : RequestStack) (channel : ℕ)
      → m.request ≡ none
      → m.error ≡ []
      → ((read_message handlers m h (add m.request_id channel s)).1.0
          ≡ delivers channel (answered m.response))
        × (lookup m.request_id (read_message handlers m h (add m.request_id channel s)).1.1.1
            ≡ none)
        × ((read_message handlers m h
              (read_message handlers m h (add m.request_id channel s)).1.1.1).1.0
            ≡ blocked)
  unfolding read_message add
  read_message_response handlers m h s channel hq he =
      let found =
        deliver_waiting m (add m.request_id channel s) channel
          (lookup-insert_self m.request_id channel s) he in
      let gone = lookup-remove_self m.request_id (add m.request_id channel s) in
      let unknown = deliver_unknown m (remove m.request_id (add m.request_id channel s)) gone in
      (ground arith, ground arith, ground arith)
