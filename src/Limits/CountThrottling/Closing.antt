-- ===== src/Limits/CountThrottling/Closing.antt =====
-- What the worker of count_throttling.go does with a job, and after `Close`.
use panthalassa.Base.{ℕ, ◌+◌, ◌<◌, ◌^◌, ◌≡◌, true, false, List, [], ◌∷◌, arith}
use panthalassa.Limits.CountThrottling.{top, Throttle, Event, step, run, worker, shut}

-- One pass of the worker's loop.
abbrev pub round : List Event
round = worker ∷ worker ∷ worker ∷ worker ∷ worker ∷ worker ∷ []

module _ (t : Throttle) (small : t.concurrency < 2 ^ 64) (alive : t.crashed ≡ false)
    (at_top : t.phase ≡ top) (free : t.in_work < t.concurrency)
    (calm : t.current < t.concurrency) where
  -- While both counters are below the limit, which fits a `uint`, and nothing has panicked, one
  -- pass of the worker from the top of its loop starts the first job of the queue: it is taken
  -- off, counted twice, and its cool down begins now.
  pub run-round :
      (j : ℕ) (js : List ℕ)
      → t.stack ≡ j ∷ js
      → run round t ≡ record t {
        stack = js;
        in_work = t.in_work + 1;
        current = t.current + 1;
        timers = (t.now + t.cool_down) ∷ t.timers;
        started = (record { job = j; time = t.now }) ∷ t.started;
      }
  unfolding run step
  run-round j js e = ground arith

  -- `Close` closes the channel and sets nothing to nil, so the worker's test `t.stack == nil`
  -- never holds: with an open, empty queue, both counters below a limit that fits a `uint` and
  -- the worker at the top of its loop, the next pass of the worker receives a nil function and
  -- panics.
  pub run-shut_crashes : t.stack ≡ [] → t.closed ≡ false → (run (shut ∷ round) t).crashed ≡ true
  unfolding run step
  run-shut_crashes e o = ground arith
