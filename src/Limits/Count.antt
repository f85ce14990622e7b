-- ===== src/Limits/Count.antt =====
-- dapp/request_limitation/count.go. The state goroutine is a function of one message; `Increase`
-- and `Decrease` are read first as calls of one goroutine, then as the separate messages that
-- several goroutines may interleave.
pub mod Sequential
pub mod Race
use panthalassa.Base.{
  ℕ, ◌+◌, ◌-◌, ◌<◌, ◌≡◌, Option, none, some, List, ◌∷◌, ◌++◌, leb, nat_beq, if◌then◌else◌, word,
}

-- The three channels of the limiter.
pub data Message : Type 0 where
  increase_msg decrease_msg count_msg : Message

-- One round of the state goroutine: the new counter, and the answer on the response channel.
unfoldable pub handle : Message → ℕ → ℕ × Option ℕ
handle increase_msg count = (word (count + 1), none)
handle decrease_msg count = (if nat_beq count 0 then count else count - 1, none)
handle count_msg count = (count, some count)

pub data CountError : Type 0 where
  can_not_increase : CountError

pub record Count : Type 0 where
  pub max : ℕ
  pub count : ℕ

unfoldable pub new_count : ℕ → Count
new_count max = record { max = max; count = 0 }

unfoldable pub send : Count → Message → Count
unfolding handle
send c m = record c { count = (handle m c.count).0 }

unfoldable pub current_count : Count → Option ℕ
unfolding handle
current_count c = (handle count_msg c.count).1

unfoldable pub increase : Count → Option CountError × Count
unfolding handle send
increase c = elim (handle count_msg c.count).1 [
  | none ↦ (none, c)
  | some n ↦ if leb c.max n then (some can_not_increase, c) else (none, send c increase_msg)
]

unfoldable pub decrease : Count → Count
unfolding handle send
decrease c = elim (handle count_msg c.count).1 [
  | none ↦ c
  | some n ↦ if nat_beq n 0 then c else send c decrease_msg
]

-- What a goroutine that uses the limiter is doing: nothing, between the check and the message of
-- `Increase`, or between the check and the message of `Decrease`.
pub data Client : Type 0 where
  idle granted releasing : Client

pub record World : Type 0 where
  pub max : ℕ
  pub count : ℕ
  pub clients : List Client

-- One client's step. `before` and `after` are the other clients.
pub data Step (w : World) : World → Type 0 where
  check :
      {v : World} (before after : List Client)
      → w.clients ≡ before ++ (idle ∷ after)
      → w.count < w.max
      → v ≡ record w { clients = before ++ (granted ∷ after) }
      → Step w v
  increment :
      {v : World} (before after : List Client)
      → w.clients ≡ before ++ (granted ∷ after)
      → v ≡ record w { count = (handle increase_msg w.count).0; clients = before ++ (idle ∷ after) }
      → Step w v
  check_release :
      {v : World} (before after : List Client)
      → w.clients ≡ before ++ (idle ∷ after)
      → 0 < w.count
      → v ≡ record w { clients = before ++ (releasing ∷ after) }
      → Step w v
  decrement :
      {v : World} (before after : List Client)
      → w.clients ≡ before ++ (releasing ∷ after)
      → v ≡ record w { count = (handle decrease_msg w.count).0; clients = before ++ (idle ∷ after) }
      → Step w v

pub data Reach (w : World) : World → Type 0 where
  here : Reach w w
  next : {u v : World} → Reach w u → Step u v → Reach w v
