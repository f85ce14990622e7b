-- ===== src/Tests/Api.antt =====
-- Tests of the requests to the app.
use panthalassa.Base.{◌≡◌, refl, none, some, [], ◌∷◌, lookup, insert, remove, nat_eq, bytes_eq, ok}
use panthalassa.Api.{
  Api, new_api, receiving, timing_out, marshalling, ask, marshal, time_out, respond,
}
use panthalassa.Api.Waiting.{
  Reach, begin, step, asks, marshals, times_out, IsConsistent, Reach-IsConsistent,
}
use panthalassa.Api.Abandoned.{stay, respond-expire_stuck}

abbrev empty : Api
empty = record { requests = []; callers = []; answering = [] }

abbrev asked : Api
asked = record {
  requests = (7 ∷ [], 3) ∷ [];
  callers = (3, (marshalling, 7 ∷ [])) ∷ [];
  answering = [];
}

abbrev sent : Api
sent = record asked { callers = (3, (receiving, 7 ∷ [])) ∷ [] }

-- The caller is about to take its request out of the table.
abbrev late : Api
late = record asked { callers = (3, (timing_out, 7 ∷ [])) ∷ [] }

abbrev too_late : Api
too_late = record {
  requests = [];
  callers = (3, (timing_out, 7 ∷ [])) ∷ [];
  answering = (3, 7 ∷ []) ∷ [];
}

sent-Reach : Reach sent
unfolding new_api lookup ask insert marshal
sent-Reach =
    step asked sent (step empty asked begin (asks (7 ∷ []) 3 empty refl refl refl))
      (marshals (ok tt) (7 ∷ []) 3 asked refl)

late-Reach : Reach late
unfolding lookup insert time_out
late-Reach = step sent late sent-Reach (times_out (7 ∷ []) 3 sent refl)

Reach-IsConsistent_example : IsConsistent late
Reach-IsConsistent_example = Reach-IsConsistent late late-Reach

respond-expire_stuck_example : lookup 3 too_late.answering ≡ some (7 ∷ [])
unfolding lookup panthalassa.Base.bytes_beq time_out respond remove insert
respond-expire_stuck_example =
    respond-expire_stuck (7 ∷ []) 3 sent too_late sent-Reach refl (stay too_late)
