-- ===== src/Limits/CountThrottling/Order.antt =====
-- count_throttling.go starts the jobs in the order in which they were queued, and loses none.
use mathlib.Core.List.{append_assoc}
use panthalassa.Base.{ℕ, ◌≡◌, refl, some, List, [], ◌∷◌, ◌++◌, arith}
use panthalassa.Limits.CountThrottling.{
  Phase, taken, counted, launching, Start, Throttle, new_count_throttling, Event, step, run, submit,
  worker, timer, finish, shut, pass,
}

-- The started jobs, the first one first.
pub began : List Start → List ℕ
began [] = []
began (s ∷ ss) = began ss ++ (s.job ∷ [])

-- The job that the worker holds.
pub in_hand : Phase → List ℕ
in_hand (taken (some j)) = j ∷ []
in_hand (counted (some j)) = j ∷ []
in_hand (launching (some j)) = j ∷ []
in_hand _ = []

abbrev pub InOrder : Throttle → Type 0
InOrder t = t.submitted ≡ began t.started ++ (in_hand t.phase ++ t.stack)

step-InOrder : (e : Event) (t : Throttle) → InOrder t → InOrder (step e t)
unfolding step in_hand began
step-InOrder (submit j) t h = ground (
  arith,
  append_assoc (began t.started) (in_hand t.phase ++ t.stack) (j ∷ []),
  append_assoc (in_hand t.phase) t.stack (j ∷ []),
)
step-InOrder worker t h = ground (arith, append_assoc (began t.started) (in_hand t.phase) t.stack)
step-InOrder timer t h = ground arith
step-InOrder finish t h = ground arith
step-InOrder shut t h = ground arith
step-InOrder (pass d) t h = h

run-InOrder : (es : List Event) (t : Throttle) → InOrder t → InOrder (run es t)
unfolding run
run-InOrder [] t h = h
run-InOrder (e ∷ es) t h = run-InOrder es (step e t) (step-InOrder e t h)

-- After any events, the accepted jobs are, in the order in which they were accepted, those that
-- were started, then the one that the worker holds, then those in the queue.
pub run-order : (es : List Event) (c cool q : ℕ) → InOrder (run es (new_count_throttling c cool q))
run-order es c cool q =
    run-InOrder es (new_count_throttling c cool q)
      (unfold new_count_throttling began in_hand in refl)
