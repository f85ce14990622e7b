-- ===== src/Limits/Throttling/Bounds.antt =====
-- The counter, the queue and the rate of throttling.go.
use panthalassa.Base.{ℕ, ◌+◌, ◌≤◌, ◌<◌, ◌^◌, ◌≡◌, List, [], ◌∷◌, arith, length, length-append}
use panthalassa.Limits.CountThrottling.Counters.{length-remove_due}
use panthalassa.Limits.CountThrottling.Rate.{live, recent, live-le-length, live-remove_due}
use panthalassa.Limits.Throttling.{
  Phase, ready, taken, launching, Throttling, new_throttling, Event, step, run, submit, worker,
  timer, shut, pass,
}

-- 1 from the increment of `inWork` on until the timer is running.
abbrev in_flight : Phase → ℕ
in_flight (launching _) = 1
in_flight _ = 0

-- What the worker may rely on since its check.
abbrev Checked : Phase → ℕ → ℕ → Type 0
Checked ready c in_work = in_work < c
Checked (taken _) c in_work = in_work < c
Checked _ c in_work = Unit

-- The settings are those of the start; the counter and the queue are within them; each job counted
-- has a timer running, but for one that is just being launched.
pub record IsThrottled (c cool q : ℕ) (t : Throttling) : Type 0 where
  pub concurrency_kept : t.concurrency ≡ c
  pub cool_down_kept : t.cool_down ≡ cool
  pub max_queue_kept : t.max_queue ≡ q
  pub in_work_capped : t.in_work ≤ c
  pub stack_capped : length t.stack ≤ q
  pub timers_run : t.in_work ≡ length t.timers + in_flight t.phase
  pub checked : Checked t.phase c t.in_work

-- At any later time, as many cool downs as timers are not over.
abbrev Timed : ℕ → Throttling → Type 0
Timed cool t = (n : ℕ) → t.now ≤ n → recent cool n t.started ≡ live n t.timers

module _ (c cool q : ℕ) (small : c < 2 ^ 64) where
  step-IsThrottled :
      (e : Event) (t : Throttling) → IsThrottled c cool q t → IsThrottled c cool q (step e t)
  unfolding step
  step-IsThrottled (submit j) t h = ground (arith, length-append t.stack (j ∷ []))
  step-IsThrottled worker t h = ground arith
  step-IsThrottled timer t h = ground (arith, length-remove_due t.now t.timers)
  step-IsThrottled shut t h = ground arith
  step-IsThrottled (pass d) t h = ground arith

  step-Timed :
      (e : Event) (t : Throttling) → t.cool_down ≡ cool → Timed cool t → Timed cool (step e t)
  unfolding step live recent
  step-Timed (submit j) t same h n = ground (arith, h n)
  step-Timed worker t same h n = ground (arith, h n)
  step-Timed timer t same h n = ground (arith, h n, live-remove_due n t.now t.timers)
  step-Timed shut t same h n = ground (arith, h n)
  step-Timed (pass d) t same h n = ground (arith, h n)

  run_bounds :
      (es : List Event) (t : Throttling)
      → IsThrottled c cool q t
      → Timed cool t
      → IsThrottled c cool q (run es t) × Timed cool (run es t)
  unfolding run
  run_bounds [] t h k = (h, k)
  run_bounds (e ∷ es) t h k =
      run_bounds es (step e t) (step-IsThrottled e t h) (step-Timed e t h.cool_down_kept k)

  new-IsThrottled : IsThrottled c cool q (new_throttling c cool q)
  unfolding new_throttling
  new-IsThrottled = ground arith

  new-Timed : Timed cool (new_throttling c cool q)
  unfolding new_throttling live recent
  new-Timed n h = ground arith

  -- After any events, where the limit fits a `uint`, the counter is within the limit, the queue is
  -- within its length, and at most `c` of all jobs started so far have begun within the last `cool`
  -- units of time.
  pub run-throttled :
      (es : List Event)
      → ((run es (new_throttling c cool q)).in_work ≤ c)
        × (length (run es (new_throttling c cool q)).stack ≤ q)
        × (recent cool
              (run es (new_throttling c cool q)).now
              (run es (new_throttling c cool q)).started
            ≤ c)
  run-throttled es =
      let t = run es (new_throttling c cool q) in
      let (h, k) = run_bounds es (new_throttling c cool q) new-IsThrottled new-Timed in
      (
        h.in_work_capped,
        h.stack_capped,
        ground (
          arith,
          h.timers_run,
          h.in_work_capped,
          k t.now (omega arith),
          live-le-length t.now t.timers,
        ),
      )
