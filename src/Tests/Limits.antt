-- ===== src/Tests/Limits.antt =====
-- Tests of dapp/request_limitation.
use panthalassa.Base.{◌+◌, ◌≤◌, ◌≡◌, List, [], ◌∷◌, arith}
use panthalassa.Limits.Count.{World, Reach, idle}
use panthalassa.Limits.Count.Race.{count_sharp}
use panthalassa.Limits.Throttling
use panthalassa.Limits.Throttling.{new_throttling}
use panthalassa.Limits.CountThrottling.{
  Throttle, Event, submit, worker, timer, pass, run, new_count_throttling,
}
use panthalassa.Limits.CountThrottling.Rate.{recent, run-rate}

count_sharp_example :
    ((v : World)
      → Reach (record { max = 1; count = 0; clients = idle ∷ idle ∷ [] }) v
      → v.count + 1 ≤ 1 + 2)
    × ((v : World) × Reach (record { max = 1; count = 0; clients = idle ∷ idle ∷ [] }) v
        × (v.count + 1 ≡ 1 + 2))
count_sharp_example = count_sharp 1 2 (omega arith) (omega arith) (omega arith)

abbrev busy : List Event
busy =
    submit 7 ∷ submit 8 ∷ worker ∷ worker ∷ worker ∷ worker ∷ worker ∷ worker ∷ pass 3 ∷ timer ∷ []

run-rate_example :
    recent 5
      (run busy (new_count_throttling 1 5 2)).now
      (run busy (new_count_throttling 1 5 2)).started
    ≤ 1
run-rate_example = run-rate busy 1 5 2 (omega arith)

-- One job waits, none has started.
abbrev waiting : Throttle
waiting = run (submit 7 ∷ []) (new_count_throttling 1 5 2)

abbrev throttled : List Throttling.Event
throttled =
    Throttling.submit 7
    ∷ Throttling.submit 8
    ∷ Throttling.worker
    ∷ Throttling.worker
    ∷ Throttling.worker
    ∷ Throttling.worker
    ∷ Throttling.pass 3
    ∷ Throttling.timer
    ∷ []
