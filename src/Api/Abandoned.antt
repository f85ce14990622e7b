-- ===== src/Api/Abandoned.antt =====
-- A `Respond` whose request has timed out.
use panthalassa.Base.{
  ℕ, ◌≡◌, Bool, true, false, Option, none, some, arith, ap, Bytes, lookup, lookup-insert,
  lookup-remove, lookup-insert_self, nat_eq, nat_beq_iff, bytes_eq, Option-cases, inl, inr, ok, err,
}
use panthalassa.Api.{
  Api, Phase, marshalling, receiving, timing_out, marshal_failed, add_request, cut_request,
  set_phase, ask, marshal, time_out, expire, respond, deliver,
}
use panthalassa.Api.Waiting.{
  Step, asks, marshals, times_out, expires, responds, delivers, Reach, IsConsistent, answered,
  respond-some, respond-none, answered-IsConsistent, set_phase-IsConsistent, Step-IsConsistent,
  Reach-IsConsistent,
}

pub data Runs : Api → Api → Type 0 where
  stay : (a : Api) → Runs a a
  then_step : (a b c : Api) → Runs a b → Step b c → Runs a c

-- The caller receives, or will do so.
unfoldable receives : Option (Phase × Bytes) → Bool
receives none = false
receives (some (marshalling, id)) = true
receives (some (receiving, id)) = true
receives (some (timing_out, id)) = false
receives (some (marshal_failed, id)) = false

-- A `Respond` sends on a channel on which nobody will receive.
abbrev IsStuck : ℕ → Bytes → Api → Type 0
IsStuck ch id a = (lookup ch a.answering ≡ some id) × (receives (lookup ch a.callers) ≡ false)

-- A caller that will receive is on another channel.
set_phase-IsStuck :
    (p : Phase) (i : Bytes) (c ch : ℕ) (id : Bytes) (a : Api)
    → receives (lookup c a.callers) ≡ true
    → IsStuck ch id a
    → IsStuck ch id (set_phase p i c a)
unfolding set_phase
set_phase-IsStuck p i c ch id a comes (sends, alone) =
    (sends, ground (arith, lookup-insert c ch (p, i) a.callers, nat_beq_iff c ch))

Step-IsStuck :
    (ch : ℕ) (id : Bytes) (a b : Api)
    → IsConsistent a
    → Step a b
    → IsStuck ch id a
    → IsStuck ch id b
unfolding ask add_request expire cut_request deliver set_phase marshal time_out receives
Step-IsStuck ch id a b v (asks i c _ new free quiet) (sends, alone) =
    (sends, ground (arith, lookup-insert c ch (marshalling, i) a.callers, nat_beq_iff c ch))
Step-IsStuck ch id a b v (marshals (ok u) i c _ held) stuck =
    set_phase-IsStuck _ i c ch id a (ap receives held) stuck
Step-IsStuck ch id a b v (marshals (err e) i c _ held) stuck =
    set_phase-IsStuck _ i c ch id a (ap receives held) stuck
Step-IsStuck ch id a b v (times_out i c _ held) stuck =
    set_phase-IsStuck _ i c ch id a (ap receives held) stuck
Step-IsStuck ch id a b v (expires i c _ held) (sends, alone) =
    (ground arith, ground (arith, lookup-remove c ch a.callers))
Step-IsStuck ch id a b v (responds i _) (sends, alone) = elim (Option-cases (lookup i a.requests)) [
  | inl e ↦ rw (respond-none i a e) (sends, alone)
  | inr (c, e) ↦
      rw (respond-some i c a e) (
        ground (arith, lookup-insert c ch i a.answering, nat_beq_iff c ch, v.unanswered i c),
        alone,
      )
]
Step-IsStuck ch id a b v (delivers c i other _ held sent) (sends, alone) = (
  ground (arith, lookup-remove c ch a.answering, nat_beq_iff c ch),
  ground (arith, lookup-remove c ch a.callers),
)

Runs-IsStuck :
    (ch : ℕ) (id : Bytes) (a b : Api)
    → Runs a b
    → IsConsistent a
    → IsStuck ch id a
    → IsConsistent b × IsStuck ch id b
Runs-IsStuck ch id a b (stay _) v stuck = (v, stuck)
Runs-IsStuck ch id a c (then_step _ b _ before st) v stuck =
    let (w, still) = Runs-IsStuck ch id a b before v stuck in
    (Step-IsConsistent b c st w, Step-IsStuck ch id b c w st still)

late_answer : (id : Bytes) (ch : ℕ) (a : Api) → IsStuck ch id (time_out id ch (answered id ch a))
unfolding time_out set_phase receives
late_answer id ch a = (
  ground (arith, lookup-insert_self ch id a.answering),
  ground (arith, lookup-insert_self ch (timing_out, id) a.callers),
)

-- Where `Respond` took a request from the table and the request timed out before the response was
-- received, that `Respond` is still sending after any further steps: it never returns.
pub respond-expire_stuck :
    (id : Bytes) (ch : ℕ) (a b : Api)
    → Reach a
    → lookup id a.requests ≡ some ch
    → Runs (time_out id ch (respond id a).1) b
    → lookup ch b.answering ≡ some id
respond-expire_stuck id ch a b reached found runs =
    let v = Reach-IsConsistent a reached in
    let sent = respond-some id ch a found in
    let after = answered-IsConsistent id ch a found v in
    let now : Runs (time_out id ch (answered id ch a)) b = rw sent at runs in
    let ready : IsConsistent (time_out id ch (answered id ch a)) =
      unfold time_out in
      set_phase-IsConsistent timing_out id ch (answered id ch a) (v.owned id ch found) after in
    (Runs-IsStuck ch id _ b now ready (late_answer id ch a)).1.0
