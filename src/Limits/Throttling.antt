-- ===== src/Limits/Throttling.antt =====
-- dapp/request_limitation/throttling.go: the limiter whose jobs end with their cool down. It is
-- modelled as Limits.CountThrottling is, with one counter: the state goroutine owns `in_work`, the
-- worker takes jobs from `stack`, each started job has a timer goroutine. `now`, `started` and
-- `submitted` are not in the program.
pub mod Bounds
use panthalassa.Base.{
  ℕ, ◌+◌, ◌-◌, Bool, true, false, Option, none, some, List, [], ◌∷◌, ◌++◌, leb, ltb, if◌then◌else◌,
  word, length,
}
use panthalassa.Limits.CountThrottling.{Start, remove_due}

-- Where the worker is in its loop; the job that it holds is `none` for the nil function, which a
-- receive from a closed channel gives.
pub data Phase : Type 0 where
  top : Phase  -- before `<-iw >= t.concurrency`
  ready : Phase  -- at the `select` over the stack
  taken : Option ℕ → Phase  -- before `incInWork <- struct{}{}`
  launching : Option ℕ → Phase  -- before `go job()`

pub record Throttling : Type 0 where
  pub concurrency : ℕ
  pub cool_down : ℕ
  pub max_queue : ℕ
  pub in_work : ℕ
  pub stack : List ℕ
  pub closed : Bool
  pub crashed : Bool  -- a goroutine panicked
  pub phase : Phase
  pub timers : List ℕ  -- when each running timer goes off
  pub now : ℕ
  pub started : List Start  -- the last one first
  pub submitted : List ℕ

unfoldable pub new_throttling : ℕ → ℕ → ℕ → Throttling
new_throttling concurrency cool_down max_queue = record {
  concurrency = concurrency;
  cool_down = cool_down;
  max_queue = max_queue;
  in_work = 0;
  stack = [];
  closed = false;
  crashed = false;
  phase = top;
  timers = [];
  now = 0;
  started = [];
  submitted = [];
}

-- The two counting messages of the state goroutine.
unfoldable pub inc_in_work : Throttling → Throttling
inc_in_work t = record t { in_work = word (t.in_work + 1) }

unfoldable pub dec_in_work : Throttling → Throttling
dec_in_work t = if ltb 0 t.in_work then record t { in_work = t.in_work - 1 } else t

-- `go job()` and the timer goroutine. Calling the nil function panics.
unfoldable pub launch : Option ℕ → Throttling → Throttling
launch none t = record t { crashed = true }
launch (some j) t = record t {
  phase = top;
  timers = (t.now + t.cool_down) ∷ t.timers;
  started = (record { job = j; time = t.now }) ∷ t.started;
}

-- The receive from `stack`: it waits while the channel is open and empty.
unfoldable pub take_job : List ℕ → Throttling → Throttling
take_job [] t = if t.closed then record t { phase = taken none } else t
take_job (j ∷ js) t = record t { stack = js; phase = taken (some j) }

-- One step of the worker.
unfoldable pub work : Phase → Throttling → Throttling
unfolding inc_in_work launch take_job
work top t = if leb t.concurrency t.in_work then t else record t { phase = ready }
work ready t = take_job t.stack t
work (taken j) t = record (inc_in_work t) { phase = launching j }
work (launching j) t = launch j t

pub data Refusal : Type 0 where
  queue_full : Refusal

-- `Exec`: the test of the queue, and the send, which panics on a closed channel.
unfoldable pub exec : ℕ → Throttling → Option Refusal × Throttling
exec j t =
    if leb t.max_queue (length t.stack)
    then (some queue_full, t)
    else if t.closed
    then (none, record t { crashed = true })
    else (none, record t { stack = t.stack ++ (j ∷ []); submitted = t.submitted ++ (j ∷ []) })

unfoldable pub close : Throttling → Throttling
close t = if t.closed then record t { crashed = true } else record t { closed = true }

-- A timer that is due sends on `decInWork`.
unfoldable pub fire : Throttling → Throttling
unfolding dec_in_work remove_due
fire t = elim (remove_due t.now t.timers) [
  | none ↦ t
  | some rest ↦ dec_in_work (record t { timers = rest })
]

pub data Event : Type 0 where
  submit : ℕ → Event
  worker timer shut : Event
  pass : ℕ → Event

unfoldable pub step : Event → Throttling → Throttling
unfolding work exec fire close
step (submit j) t = if t.crashed then t else (exec j t).1
step worker t = if t.crashed then t else work t.phase t
step timer t = if t.crashed then t else fire t
step shut t = if t.crashed then t else close t
step (pass d) t = record t { now = t.now + d }

unfoldable pub run : List Event → Throttling → Throttling
run [] t = t
run (e ∷ es) t = run es (step e t)
