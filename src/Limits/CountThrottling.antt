-- ===== src/Limits/CountThrottling.antt =====
-- dapp/request_limitation/count_throttling.go. The state goroutine owns `in_work` and `current`,
-- the worker goroutine takes jobs from the channel `stack`, each started job has a timer goroutine
-- that ends its cool down, and any goroutine may submit a job or send on `decCurrent`. A run is a
-- list of events, one for each step of one of these goroutines; the state after it is computed.
-- `now`, `started` and `submitted` are not in the program: they record when which job began.
pub mod Counters
pub mod Rate
pub mod Order
pub mod Closing
use panthalassa.Base.{
  ℕ, ◌+◌, ◌-◌, Bool, true, false, Option, none, some, List, [], ◌∷◌, ◌++◌, leb, ltb, if◌then◌else◌,
  word, length,
}

-- Where the worker is in its loop. The job that it holds is `none` for the nil function, which a
-- receive from a closed channel gives.
pub data Phase : Type 0 where
  top : Phase  -- before `t.inWork() >= t.concurrency`
  asked : Phase  -- `inWork` was below, before `t.Current() >= t.concurrency`
  ready : Phase  -- at the `select` over the stack
  taken : Option ℕ → Phase  -- before `incInWork <- struct{}{}`
  counted : Option ℕ → Phase  -- before `incCurrent <- struct{}{}`
  launching : Option ℕ → Phase  -- before `go job(t.decCurrent)`

-- A job that was started, and when.
pub record Start : Type 0 where
  pub job : ℕ
  pub time : ℕ

pub record Throttle : Type 0 where
  pub concurrency : ℕ
  pub cool_down : ℕ
  pub max_queue : ℕ
  pub in_work : ℕ
  pub current : ℕ
  pub stack : List ℕ
  pub closed : Bool
  pub crashed : Bool  -- a goroutine panicked
  pub phase : Phase
  pub timers : List ℕ  -- when each running timer goes off
  pub now : ℕ
  pub started : List Start  -- the last one first
  pub submitted : List ℕ

unfoldable pub new_count_throttling : ℕ → ℕ → ℕ → Throttle
new_count_throttling concurrency cool_down max_queue = record {
  concurrency = concurrency;
  cool_down = cool_down;
  max_queue = max_queue;
  in_work = 0;
  current = 0;
  stack = [];
  closed = false;
  crashed = false;
  phase = top;
  timers = [];
  now = 0;
  started = [];
  submitted = [];
}

-- The four counting messages of the state goroutine.
unfoldable pub inc_in_work : Throttle → Throttle
inc_in_work t = record t { in_work = word (t.in_work + 1) }

unfoldable pub dec_in_work : Throttle → Throttle
dec_in_work t = if ltb 0 t.in_work then record t { in_work = t.in_work - 1 } else t

unfoldable pub inc_current : Throttle → Throttle
inc_current t = record t { current = word (t.current + 1) }

unfoldable pub dec_current : Throttle → Throttle
dec_current t = if ltb 0 t.current then record t { current = t.current - 1 } else t

-- `go job(t.decCurrent)` and the timer goroutine. Calling the nil function panics.
unfoldable pub launch : Option ℕ → Throttle → Throttle
launch none t = record t { crashed = true }
launch (some j) t = record t {
  phase = top;
  timers = (t.now + t.cool_down) ∷ t.timers;
  started = (record { job = j; time = t.now }) ∷ t.started;
}

-- The receive from `stack`: it waits while the channel is open and empty.
unfoldable pub take_job : List ℕ → Throttle → Throttle
take_job [] t = if t.closed then record t { phase = taken none } else t
take_job (j ∷ js) t = record t { stack = js; phase = taken (some j) }

-- One step of the worker.
unfoldable pub work : Phase → Throttle → Throttle
unfolding inc_in_work inc_current launch take_job
work top t = if leb t.concurrency t.in_work then t else record t { phase = asked }
work asked t =
    if leb t.concurrency t.current then record t { phase = top } else record t { phase = ready }
work ready t = take_job t.stack t
work (taken j) t = record (inc_in_work t) { phase = counted j }
work (counted j) t = record (inc_current t) { phase = launching j }
work (launching j) t = launch j t

pub data Refusal : Type 0 where
  queue_full : Refusal

-- `Exec`: the test of the queue, and the send, which panics on a closed channel.
unfoldable pub exec : ℕ → Throttle → Option Refusal × Throttle
exec j t =
    if leb t.max_queue (length t.stack)
    then (some queue_full, t)
    else if t.closed
    then (none, record t { crashed = true })
    else (none, record t { stack = t.stack ++ (j ∷ []); submitted = t.submitted ++ (j ∷ []) })

unfoldable pub close : Throttle → Throttle
close t = if t.closed then record t { crashed = true } else record t { closed = true }

-- Takes the first timer that is due.
unfoldable pub remove_due : ℕ → List ℕ → Option (List ℕ)
remove_due now [] = none
remove_due now (d ∷ ds) =
    let rest = remove_due now ds in
    if leb d now then some ds else elim rest [ none ↦ none | some r ↦ some (d ∷ r) ]

-- A timer that is due sends on `decInWork`.
unfoldable pub fire : Throttle → Throttle
unfolding dec_in_work
fire t = elim (remove_due t.now t.timers) [
  | none ↦ t
  | some rest ↦ dec_in_work (record t { timers = rest })
]

pub data Event : Type 0 where
  submit : ℕ → Event
  worker timer finish shut : Event
  pass : ℕ → Event

unfoldable pub step : Event → Throttle → Throttle
unfolding work exec dec_current fire close
step (submit j) t = if t.crashed then t else (exec j t).1
step worker t = if t.crashed then t else work t.phase t
step timer t = if t.crashed then t else fire t
step finish t = if t.crashed then t else dec_current t
step shut t = if t.crashed then t else close t
step (pass d) t = record t { now = t.now + d }

unfoldable pub run : List Event → Throttle → Throttle
run [] t = t
run (e ∷ es) t = run es (step e t)
