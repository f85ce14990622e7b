-- ===== src/Limits/Count/Sequential.antt =====
-- The counter of count.go when one goroutine at a time calls it.
use panthalassa.Base.{ℕ, ◌+◌, ◌-◌, ◌<◌, ◌≤◌, ◌^◌, ◌≡◌, none, some, ◌⊎◌, List, [], ◌∷◌, arith}
use panthalassa.Limits.Count.{Count, can_not_increase, increase, decrease, new_count}

-- With a limit that fits a `uint`, `Increase` fails exactly when the counter has reached the
-- limit, and then leaves it; otherwise it adds one and the counter stays within the limit.
pub increase_lem :
    (c : Count)
    → c.max < 2 ^ 64
    → ((c.max ≤ c.count) × (increase c ≡ (some can_not_increase, c)))
      ⊎ ((c.count < c.max) × (increase c ≡ (none, record c { count = c.count + 1 })))
unfolding increase
increase_lem c h = ground arith

pub increase_within : (c : Count) → c.max < 2 ^ 64 → c.count ≤ c.max → (increase c).1.count ≤ c.max
unfolding increase
increase_within c h k = ground arith

pub max-increase : (c : Count) → (increase c).1.max ≡ c.max
unfolding increase
max-increase c = ground arith

pub decrease_lem : (c : Count) → decrease c ≡ record c { count = c.count - 1 }
unfolding decrease
decrease_lem c = ground arith

-- A sequence of calls.
pub data Call : Type 0 where
  inc dec : Call

pub call : Call → Count → Count
call inc c = (increase c).1
call dec c = decrease c

pub calls : List Call → Count → Count
calls [] c = c
calls (k ∷ ks) c = calls ks (call k c)

calls_bounds :
    (ks : List Call) (c : Count)
    → c.max < 2 ^ 64
    → c.count ≤ c.max
    → ((calls ks c).count ≤ c.max) × ((calls ks c).max ≡ c.max)
unfolding calls call
calls_bounds [] c h k = ground arith
calls_bounds (inc ∷ ks) c h k =
    ground (arith, increase_within c h k, max-increase c, calls_bounds ks (increase c).1)
calls_bounds (dec ∷ ks) c h k = ground (arith, decrease_lem c, calls_bounds ks (decrease c))

-- However `Increase` and `Decrease` are called one after the other from a new limiter whose limit
-- fits a `uint`, the counter never passes the limit.
pub calls-within :
    (ks : List Call) (max : ℕ) → max < 2 ^ 64 → (calls ks (new_count max)).count ≤ max
unfolding new_count
calls-within ks max h = (calls_bounds ks (new_count max) h (omega arith)).0
