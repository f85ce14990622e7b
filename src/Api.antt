-- ===== src/Api.antt =====
-- api: requests to the app and its answers. The table of the channels on which callers wait is
-- guarded by a lock, so that each access to it is one step; a channel is a number. Protobuf and
-- base64 are left out of the table: what is sent and answered is a value of the type `Msg`.
pub mod Waiting
pub mod Abandoned
use panthalassa.Base.{
  ℕ, Option, none, some, [], Bytes, Assoc, lookup, insert, remove, bytes_eq, nat_eq, Result, ok,
  err,
}

pub data ApiError : Type 0 where
  no_request : Bytes → ApiError
  timed_out no_transaction : ApiError
  passed : ℕ → ApiError

-- What a caller of `request` does after `addRequest`: it marshals the request, then it receives in
-- the `select`, and after its time out it is about to call `cutRequest`. A caller whose `Marshal`
-- failed has returned.
pub data Phase : Type 0 where
  marshalling receiving timing_out marshal_failed : Phase

-- The table; the callers of `request` by their channels, with the ids of their requests; and on which
-- channels a `Respond` is sending. A caller that has returned is not there any more, but for one
-- whose request could not be marshalled.
pub record Api : Type 0 where
  pub requests : Assoc Bytes ℕ
  pub callers : Assoc ℕ (Phase × Bytes)
  pub answering : Assoc ℕ Bytes

unfoldable pub new_api : Api
new_api = record { requests = []; callers = []; answering = [] }

-- `addRequest`
unfoldable pub add_request : Bytes → ℕ → Api → Api
add_request id ch a = record a { requests = insert id ch a.requests }

-- `cutRequest`
unfoldable pub cut_request : Bytes → Api → Result ApiError ℕ × Api
cut_request id a = elim (lookup id a.requests) [
  | none ↦ (err (no_request id), a)
  | some ch ↦ (ok ch, record a { requests = remove id a.requests })
]

unfoldable pub set_phase : Phase → Bytes → ℕ → Api → Api
set_phase p id ch a = record a { callers = insert ch (p, id) a.callers }

-- `request` from the new id to `addRequest`.
unfoldable pub ask : Bytes → ℕ → Api → Api
unfolding add_request set_phase
ask id ch a = set_phase marshalling id ch (add_request id ch a)

-- The result of `Marshal`: on an error `request` returns, and leaves the table as it is.
unfoldable pub marshal : Result ℕ (Unit {0}) → Bytes → ℕ → Api → Api
unfolding set_phase
marshal (ok u) id ch a = set_phase receiving id ch a
marshal (err e) id ch a = set_phase marshal_failed id ch a

-- The `select` takes the time out.
unfoldable pub time_out : Bytes → ℕ → Api → Api
unfolding set_phase
time_out id ch a = set_phase timing_out id ch a

-- The end of `request` after a time out; the error of `cutRequest` is only logged.
unfoldable pub expire : Bytes → ℕ → Api → Api
unfolding cut_request
expire id ch a = let cut = (cut_request id a).1 in record cut { callers = remove ch cut.callers }

-- `Respond`, up to its send.
unfoldable pub respond : Bytes → Api → Result ApiError (Unit {0}) × Api
unfolding cut_request
respond id a =
    let cut = cut_request id a in
    elim cut.0 [
      | err e ↦ (err e, cut.1)
      | ok ch ↦ (ok tt, record cut.1 { answering = insert ch id cut.1.answering })
    ]

-- The send meets the receive.
unfoldable pub deliver : ℕ → Api → Api
deliver ch a = record a { callers = remove ch a.callers; answering = remove ch a.answering }

-- What a caller of `request` does with a response: the second part is what it sends to the closer.
pub record EthereumTransaction : Type 0 where
  pub fields : Assoc Bytes Bytes

unfoldable pub render_modal :
    {Msg : Type 0} → Result ApiError Msg → Result ApiError (Unit {0}) × Option (Option ApiError)
render_modal (err e) = (err e, none)
render_modal (ok m) = (ok tt, some none)

unfoldable pub send_ethereum_transaction :
    (EthereumTransaction → Result ℕ Bytes)
    → Result ApiError (Option EthereumTransaction)
    → Result ApiError Bytes × Option (Option ApiError)
send_ethereum_transaction marshal (err e) = (err e, none)
send_ethereum_transaction marshal (ok none) = (err no_transaction, some (some no_transaction))
send_ethereum_transaction marshal (ok (some tx)) = elim (marshal tx) [
  | err e ↦ (err (passed e), some (some (passed e)))
  | ok raw ↦ (ok raw, some none)
]
