-- ===== src/Limits/CountThrottling/Counters.antt =====
-- The counters of count_throttling.go stay within the limits of the limiter.
use panthalassa.Base.{
  ℕ, ◌+◌, ◌≤◌, ◌<◌, ◌^◌, ◌≡◌, Option, none, some, List, [], ◌∷◌, arith, length, length-append,
}
use panthalassa.Limits.CountThrottling.{
  Phase, top, asked, ready, taken, counted, launching, Throttle, new_count_throttling, remove_due,
  Event, step, run, submit, worker, timer, finish, shut, pass,
}

-- 1 from the increment of `inWork` on until the timer is running.
abbrev pub in_flight : Phase → ℕ
in_flight top = 0
in_flight asked = 0
in_flight ready = 0
in_flight (taken _) = 0
in_flight (counted _) = 1
in_flight (launching _) = 1

-- What the worker may rely on since its checks.
abbrev pub Checked : Phase → ℕ → ℕ → ℕ → Type 0
Checked top c in_work current = Unit
Checked asked c in_work current = in_work < c
Checked ready c in_work current = (in_work < c) × (current < c)
Checked (taken _) c in_work current = (in_work < c) × (current < c)
Checked (counted _) c in_work current = current < c
Checked (launching _) c in_work current = Unit

pub record Inv (t : Throttle) : Type 0 where
  pub in_work_capped : t.in_work ≤ t.concurrency
  pub current_capped : t.current ≤ t.concurrency
  pub stack_capped : length t.stack ≤ t.max_queue
  pub timers_run : t.in_work ≡ length t.timers + in_flight t.phase
  pub checked : Checked t.phase t.concurrency t.in_work t.current

-- One timer is gone from what `remove_due` leaves.
abbrev pub Shorter : Option (List ℕ) → List ℕ → Type 0
Shorter none ds = Unit
Shorter (some rest) ds = length ds ≡ length rest + 1

pub length-remove_due : (now : ℕ) (ds : List ℕ) → Shorter (remove_due now ds) ds
unfolding remove_due
length-remove_due now [] = tt
length-remove_due now (d ∷ ds) = ground (arith, length-remove_due now ds)

step-Inv : (e : Event) (t : Throttle) → t.concurrency < 2 ^ 64 → Inv t → Inv (step e t)
unfolding step
step-Inv (submit j) t small h = ground (arith, length-append t.stack (j ∷ []))
step-Inv worker t small h = ground arith
step-Inv timer t small h = ground (arith, length-remove_due t.now t.timers)
step-Inv finish t small h = ground arith
step-Inv shut t small h = ground arith
step-Inv (pass d) t small h = ground arith

pub concurrency-step : (e : Event) (t : Throttle) → (step e t).concurrency ≡ t.concurrency
unfolding step
concurrency-step (submit j) t = ground arith
concurrency-step worker t = ground arith
concurrency-step timer t = ground arith
concurrency-step finish t = ground arith
concurrency-step shut t = ground arith
concurrency-step (pass d) t = ground arith

pub run-Inv : (es : List Event) (t : Throttle) → t.concurrency < 2 ^ 64 → Inv t → Inv (run es t)
unfolding run
run-Inv [] t small h = h
run-Inv (e ∷ es) t small h =
    run-Inv es (step e t) (omega (arith, concurrency-step e t)) (step-Inv e t small h)

pub new-Inv : (c cool q : ℕ) → Inv (new_count_throttling c cool q)
unfolding new_count_throttling
new-Inv c cool q = ground arith

-- After any events, where the limit of concurrent jobs fits a `uint`, no counter is above it, so
-- that the counters do not wrap; the queue is within its limit; and each job counted as in work has
-- a timer running that will end it, but for one that is just being launched.
pub run-capped :
    (es : List Event) (c cool q : ℕ) → c < 2 ^ 64 → Inv (run es (new_count_throttling c cool q))
run-capped es c cool q small =
    run-Inv es (new_count_throttling c cool q) (unfold new_count_throttling in small)
      (new-Inv c cool q)
