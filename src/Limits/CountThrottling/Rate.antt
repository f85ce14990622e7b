-- ===== src/Limits/CountThrottling/Rate.antt =====
-- The rate that count_throttling.go promises: no more than `concurrency` jobs begin in the time of
-- one cool down.
use panthalassa.Base.{
  ℕ, suc, ◌+◌, ◌≤◌, ◌<◌, ◌^◌, ◌≡◌, Option, none, some, List, [], ◌∷◌, arith, length, ltb,
  if◌then◌else◌,
}
use panthalassa.Limits.CountThrottling.{
  Start, Throttle, new_count_throttling, remove_due, Event, step, run, submit, worker, timer,
  finish, shut, pass,
}
use panthalassa.Limits.CountThrottling.Counters.{run-capped, concurrency-step}

-- The timers that go off later than `n`.
unfoldable pub live : ℕ → List ℕ → ℕ
live n [] = 0
live n (d ∷ ds) = let rest = live n ds in if ltb n d then suc rest else rest

-- The jobs whose cool down lasts longer than `n`.
unfoldable pub recent : ℕ → ℕ → List Start → ℕ
recent cool n [] = 0
recent cool n (s ∷ ss) =
    let rest = recent cool n ss in if ltb n (s.time + cool) then suc rest else rest

pub live-le-length : (n : ℕ) (ds : List ℕ) → live n ds ≤ length ds
unfolding live
live-le-length n [] = omega arith
live-le-length n (d ∷ ds) = ground (arith, live-le-length n ds)

abbrev pub SameLive : ℕ → Option (List ℕ) → List ℕ → Type 0
SameLive n none ds = Unit
SameLive n (some rest) ds = live n rest ≡ live n ds

-- Only a timer that is due is removed.
pub live-remove_due : (n now : ℕ) (ds : List ℕ) → now ≤ n → SameLive n (remove_due now ds) ds
unfolding remove_due live
live-remove_due n now [] h = tt
live-remove_due n now (d ∷ ds) h = ground (arith, live-remove_due n now ds h)

abbrev Timed : Throttle → Type 0
Timed t = (n : ℕ) → t.now ≤ n → recent t.cool_down n t.started ≡ live n t.timers

step-Timed : (e : Event) (t : Throttle) → Timed t → Timed (step e t)
unfolding step live recent
step-Timed (submit j) t h n = ground (arith, h n)
step-Timed worker t h n = ground (arith, h n)
step-Timed timer t h n = ground (arith, h n, live-remove_due n t.now t.timers)
step-Timed finish t h n = ground (arith, h n)
step-Timed shut t h n = ground (arith, h n)
step-Timed (pass d) t h n = ground (arith, h n)

run-Timed : (es : List Event) (t : Throttle) → Timed t → Timed (run es t)
unfolding run
run-Timed [] t h = h
run-Timed (e ∷ es) t h = run-Timed es (step e t) (step-Timed e t h)

cool_down-step : (e : Event) (t : Throttle) → (step e t).cool_down ≡ t.cool_down
unfolding step
cool_down-step (submit j) t = ground arith
cool_down-step worker t = ground arith
cool_down-step timer t = ground arith
cool_down-step finish t = ground arith
cool_down-step shut t = ground arith
cool_down-step (pass d) t = ground arith

settings-run :
    (es : List Event) (t : Throttle)
    → ((run es t).concurrency ≡ t.concurrency) × ((run es t).cool_down ≡ t.cool_down)
unfolding run
settings-run [] t = ground arith
settings-run (e ∷ es) t =
    ground (arith, settings-run es (step e t), concurrency-step e t, cool_down-step e t)

new-Timed : (c cool q : ℕ) → Timed (new_count_throttling c cool q)
unfolding new_count_throttling live recent
new-Timed c cool q n h = ground arith

-- After any events, however the goroutines interleave and whenever the timers are late, at most `c`
-- of all jobs started so far have begun within the last `cool` units of time, where `c` fits a
-- `uint`.
pub run-rate :
    (es : List Event) (c cool q : ℕ)
    → c < 2 ^ 64
    → recent cool
        (run es (new_count_throttling c cool q)).now
        (run es (new_count_throttling c cool q)).started
      ≤ c
run-rate es c cool q small =
    let t = run es (new_count_throttling c cool q) in
    let same = settings-run es (new_count_throttling c cool q) in
    let timed = run-Timed es (new_count_throttling c cool q) (new-Timed c cool q) t.now in
    unfold new_count_throttling in
    ground (arith, same, timed, live-le-length t.now t.timers, run-capped es c cool q small)
