-- ===== src/Api/Waiting.antt =====
-- The callers of `request` and of `Respond`, interleaved in any order.
use panthalassa.Base.{
  ℕ, ◌≡◌, ap, Option, none, some, arith, Bytes, lookup, insert, remove, lookup-insert,
  lookup-remove, bytes_eq, bytes_beq_iff, nat_eq, nat_beq_iff, Option-cases, inl, inr, Result, ok,
  err,
}
use panthalassa.Api.{
  Api, Phase, marshalling, receiving, timing_out, new_api, add_request, cut_request, set_phase, ask,
  marshal, time_out, expire, respond, deliver,
}

-- One access to the table, or one communication. An id and a channel are new when they are made.
pub data Step : Api → Api → Type 0 where
  asks :
      (id : Bytes) (ch : ℕ) (a : Api)
      → lookup id a.requests ≡ none
      → lookup ch a.callers ≡ none
      → lookup ch a.answering ≡ none
      → Step a (ask id ch a)
  marshals :
      (r : Result ℕ (Unit {0})) (id : Bytes) (ch : ℕ) (a : Api)
      → lookup ch a.callers ≡ some (marshalling, id)
      → Step a (marshal r id ch a)
  times_out :
      (id : Bytes) (ch : ℕ) (a : Api)
      → lookup ch a.callers ≡ some (receiving, id)
      → Step a (time_out id ch a)
  expires :
      (id : Bytes) (ch : ℕ) (a : Api)
      → lookup ch a.callers ≡ some (timing_out, id)
      → Step a (expire id ch a)
  responds : (id : Bytes) (a : Api) → Step a (respond id a).1
  delivers :
      (ch : ℕ) (id other : Bytes) (a : Api)
      → lookup ch a.callers ≡ some (receiving, id)
      → lookup ch a.answering ≡ some other
      → Step a (deliver ch a)

pub data Reach : Api → Type 0 where
  begin : Reach new_api
  step : (a b : Api) → Reach a → Step a b → Reach b

-- The request of a caller.
abbrev pub request_of : Option (Phase × Bytes) → Option Bytes
request_of none = none
request_of (some (p, id)) = some id

-- Every request of the table has its caller on its channel, and nobody sends on that channel.
pub record IsConsistent (a : Api) : Type 0 where
  pub owned :
      (id : Bytes) (ch : ℕ)
      → lookup id a.requests ≡ some ch
      → request_of (lookup ch a.callers) ≡ some id
  pub unanswered :
      (id : Bytes) (ch : ℕ) → lookup id a.requests ≡ some ch → lookup ch a.answering ≡ none

ask-IsConsistent :
    (id : Bytes) (ch : ℕ) (a : Api)
    → lookup ch a.callers ≡ none
    → lookup ch a.answering ≡ none
    → IsConsistent a
    → IsConsistent (ask id ch a)
unfolding ask add_request set_phase
ask-IsConsistent id ch a free quiet v = record {
  owned = λ i c h. ground (
    arith,
    lookup-insert id i ch a.requests,
    lookup-insert ch c (marshalling, id) a.callers,
    bytes_beq_iff id i,
    nat_beq_iff ch c,
    v.owned i c,
  );
  unanswered = λ i c h. ground (arith, lookup-insert id i ch a.requests, v.unanswered i c);
}

pub set_phase-IsConsistent :
    (p : Phase) (id : Bytes) (ch : ℕ) (a : Api)
    → request_of (lookup ch a.callers) ≡ some id
    → IsConsistent a
    → IsConsistent (set_phase p id ch a)
unfolding set_phase
set_phase-IsConsistent p id ch a held v = record {
  owned =
      λ i c h. ground (arith, lookup-insert ch c (p, id) a.callers, nat_beq_iff ch c, v.owned i c);
  unanswered = v.unanswered;
}

marshal-IsConsistent :
    (r : Result ℕ (Unit {0})) (id : Bytes) (ch : ℕ) (a : Api)
    → request_of (lookup ch a.callers) ≡ some id
    → IsConsistent a
    → IsConsistent (marshal r id ch a)
unfolding marshal
marshal-IsConsistent (ok u) id ch a held v = set_phase-IsConsistent _ id ch a held v
marshal-IsConsistent (err e) id ch a held v = set_phase-IsConsistent _ id ch a held v

pub expire-IsConsistent :
    (id : Bytes) (ch : ℕ) (a : Api)
    → request_of (lookup ch a.callers) ≡ some id
    → IsConsistent a
    → IsConsistent (expire id ch a)
unfolding expire cut_request
expire-IsConsistent id ch a held v = record {
  owned = λ i c h. ground (
    arith,
    lookup-remove id i a.requests,
    lookup-remove ch c a.callers,
    bytes_beq_iff id i,
    nat_beq_iff ch c,
    v.owned i c,
  );
  unanswered = λ i c h. ground (arith, lookup-remove id i a.requests, v.unanswered i c);
}

-- The state after an answer to a request of the table.
abbrev pub answered : Bytes → ℕ → Api → Api
answered id ch a = record a {
  requests = remove id a.requests;
  answering = insert ch id a.answering;
}

pub respond-some :
    (id : Bytes) (ch : ℕ) (a : Api)
    → lookup id a.requests ≡ some ch
    → (respond id a).1 ≡ answered id ch a
unfolding respond cut_request
respond-some id ch a h = ground arith

pub respond-none : (id : Bytes) (a : Api) → lookup id a.requests ≡ none → (respond id a).1 ≡ a
unfolding respond cut_request
respond-none id a h = ground arith

pub answered-IsConsistent :
    (id : Bytes) (ch : ℕ) (a : Api)
    → lookup id a.requests ≡ some ch
    → IsConsistent a
    → IsConsistent (answered id ch a)
answered-IsConsistent id ch a found v = record {
  owned = λ i c h. ground (arith, lookup-remove id i a.requests, v.owned i c);
  unanswered = λ i c h. ground (
    arith,
    lookup-remove id i a.requests,
    lookup-insert ch c id a.answering,
    bytes_beq_iff id i,
    nat_beq_iff ch c,
    v.owned i c,
    v.owned id ch,
    v.unanswered i c,
  );
}

respond-IsConsistent : (id : Bytes) (a : Api) → IsConsistent a → IsConsistent (respond id a).1
respond-IsConsistent id a v = elim (Option-cases (lookup id a.requests)) [
  | inl e ↦ rw (respond-none id a e) v
  | inr (ch, e) ↦ rw (respond-some id ch a e) (answered-IsConsistent id ch a e v)
]

deliver-IsConsistent :
    (ch : ℕ) (other : Bytes) (a : Api)
    → lookup ch a.answering ≡ some other
    → IsConsistent a
    → IsConsistent (deliver ch a)
unfolding deliver
deliver-IsConsistent ch other a sent v = record {
  owned = λ i c h.
      ground (arith, lookup-remove ch c a.callers, nat_beq_iff ch c, v.owned i c, v.unanswered i c);
  unanswered = λ i c h. ground (arith, lookup-remove ch c a.answering, v.unanswered i c);
}

pub Step-IsConsistent : (a b : Api) → Step a b → IsConsistent a → IsConsistent b
Step-IsConsistent a b (asks id ch _ _ free quiet) v = ask-IsConsistent id ch a free quiet v
Step-IsConsistent a b (marshals r id ch _ held) v =
    marshal-IsConsistent r id ch a (ap request_of held) v
Step-IsConsistent a b (times_out id ch _ held) v =
    unfold time_out in set_phase-IsConsistent _ id ch a (ap request_of held) v
Step-IsConsistent a b (expires id ch _ held) v = expire-IsConsistent id ch a (ap request_of held) v
Step-IsConsistent a b (responds id _) v = respond-IsConsistent id a v
Step-IsConsistent a b (delivers ch id other _ held sent) v = deliver-IsConsistent ch other a sent v

-- However the steps of callers and of `Respond` follow each other, each request of the table has
-- the caller that made it on its channel: one that marshals it, receives, is about to take it out
-- after its time out, or failed to marshal it; and no `Respond` sends on that channel yet.
pub Reach-IsConsistent : (a : Api) → Reach a → IsConsistent a
unfolding new_api lookup
Reach-IsConsistent a begin = record {
  owned = λ i c h. absurd (ground arith);
  unanswered = λ i c h. absurd (ground arith);
}
Reach-IsConsistent b (step a _ before st) = Step-IsConsistent a b st (Reach-IsConsistent a before)
