-- ===== src/Limits/Count/Race.antt =====
-- The counter of count.go when several goroutines call `Increase` at once: the check and the
-- message are two steps.
use panthalassa.Base.{
  ℕ, suc, ◌+◌, ◌<◌, ◌≤◌, ◌^◌, ◌≡◌, refl, zero, ap, sym, replicate, length-replicate, List, [], ◌∷◌,
  ◌++◌, arith, length,
}
use panthalassa.Limits.Count.{
  Client, idle, granted, releasing, World, Step, check, increment, check_release, decrement, Reach,
  here, next, handle,
}

-- How many clients have passed the check of `Increase` and not yet sent the message.
unfoldable pub pending : List Client → ℕ
pending [] = 0
pending (granted ∷ cs) = suc (pending cs)
pending (idle ∷ cs) = pending cs
pending (releasing ∷ cs) = pending cs

pending-append : (xs ys : List Client) → pending (xs ++ ys) ≡ pending xs + pending ys
unfolding pending
pending-append [] ys = omega arith
pending-append (granted ∷ xs) ys = omega (arith, pending-append xs ys)
pending-append (idle ∷ xs) ys = pending-append xs ys
pending-append (releasing ∷ xs) ys = pending-append xs ys

pending-le-length : (xs : List Client) → pending xs ≤ length xs
unfolding pending
pending-le-length [] = omega arith
pending-le-length (granted ∷ xs) = omega (arith, pending-le-length xs)
pending-le-length (idle ∷ xs) = omega (arith, pending-le-length xs)
pending-le-length (releasing ∷ xs) = omega (arith, pending-le-length xs)

length-middle :
    (xs : List Client) (c : Client) (ys : List Client)
    → length (xs ++ (c ∷ ys)) ≡ length xs + length ys + 1
length-middle [] c ys = omega arith
length-middle (x ∷ xs) c ys = omega (arith, length-middle xs c ys)

-- `n` clients, of which at most one overshoot each but for one.
pub record IsBounded (max n : ℕ) (w : World) : Type 0 where
  pub same_max : w.max ≡ max
  pub same_clients : length w.clients ≡ n
  pub within : w.count + pending w.clients + 1 ≤ max + n

module _ (max n : ℕ) (small : max + n < 2 ^ 64) where
  Step-IsBounded : {w v : World} → Step w v → IsBounded max n w → IsBounded max n v
  unfolding handle pending
  Step-IsBounded {w} (check xs ys e lt ev) b = ground (
    arith,
    length-middle xs idle ys,
    length-middle xs granted ys,
    pending-append xs (idle ∷ ys),
    pending-append xs (granted ∷ ys),
    pending-le-length xs,
    pending-le-length ys,
  )
  Step-IsBounded {w} (increment xs ys e ev) b = ground (
    arith,
    length-middle xs idle ys,
    length-middle xs granted ys,
    pending-append xs (idle ∷ ys),
    pending-append xs (granted ∷ ys),
  )
  Step-IsBounded {w} (check_release xs ys e lt ev) b = ground (
    arith,
    length-middle xs idle ys,
    length-middle xs releasing ys,
    pending-append xs (idle ∷ ys),
    pending-append xs (releasing ∷ ys),
  )
  Step-IsBounded {w} (decrement xs ys e ev) b = ground (
    arith,
    length-middle xs idle ys,
    length-middle xs releasing ys,
    pending-append xs (idle ∷ ys),
    pending-append xs (releasing ∷ ys),
  )

  Reach-IsBounded : {w v : World} → IsBounded max n w → Reach w v → IsBounded max n v
  Reach-IsBounded b here = b
  Reach-IsBounded b (next r s) = Step-IsBounded s (Reach-IsBounded b r)

-- From a counter at 0 with `n` goroutines before the check, at least one of them, the counter is
-- never above the limit by more than `n - 1`, where the limit and `n` together fit a `uint`.
pub Reach-count :
    (max : ℕ) (clients : List Client) {v : World}
    → max + length clients < 2 ^ 64
    → 0 < length clients
    → pending clients ≡ 0
    → Reach (record { max = max; count = 0; clients = clients }) v
    → v.count + 1 ≤ max + length clients
Reach-count max clients small some_client no_pending r = omega (
  arith,
  Reach-IsBounded max (length clients) small
      (record { same_max = refl; same_clients = refl; within = omega arith }) r,
)

Reach-trans : {u v w : World} → Reach u v → Reach v w → Reach u w
Reach-trans r here = r
Reach-trans r (next q s) = next (Reach-trans r q) s

abbrev at : ℕ → ℕ → List Client → World
at max count clients = record { max = max; count = count; clients = clients }

replicate_snoc :
    (i : ℕ) (c : Client) (xs : List Client) → replicate i c ++ (c ∷ xs) ≡ replicate (suc i) c ++ xs
replicate_snoc zero c xs = refl
replicate_snoc (suc i) c xs = ap (λ l. c ∷ l) (replicate_snoc i c xs)

replicate_all : (i n : ℕ) (c : Client) → i ≡ n → replicate i c ++ [] ≡ replicate n c
replicate_all zero zero c e = refl
replicate_all zero (suc n) c e = absurd (omega arith)
replicate_all (suc i) zero c e = absurd (omega arith)
replicate_all (suc i) (suc n) c e = ap (λ l. c ∷ l) (replicate_all i n c (omega arith))

pending_idle : (n : ℕ) → pending (replicate n idle) ≡ 0
unfolding pending
pending_idle zero = refl
pending_idle (suc n) = pending_idle n

-- One goroutine after the other passes the check, before any of them is counted.
grant_all :
    (max count n i j : ℕ)
    → count < max
    → i + j ≡ n
    → Reach
        (at max count (replicate i granted ++ replicate j idle))
        (at max count (replicate n granted))
grant_all max count n i zero lt e = rw (replicate_all i n granted (omega arith)) here
grant_all max count n i (suc j) lt e =
    Reach-trans
      (next here (
        check {v = at max count (replicate (suc i) granted ++ replicate j idle)}
          (replicate i granted) (replicate j idle) refl lt
          (ap (λ l. at max count l) (sym (replicate_snoc i granted (replicate j idle))))))
      (grant_all max count n (suc i) j lt (omega arith))

-- Then each of them is counted.
count_all :
    (max count n i j : ℕ)
    → count + j < 2 ^ 64
    → i + j ≡ n
    → Reach
        (at max count (replicate i idle ++ replicate j granted))
        (at max (count + j) (replicate n idle))
unfolding handle
count_all max count n i zero fits e =
    rw (replicate_all i n idle (omega arith))
      (let same : count + 0 ≡ count = omega arith in rw same here)
count_all max count n i (suc j) fits e =
    let same : suc count + j ≡ count + suc j = omega arith in
    let others = count_all max (suc count) n (suc i) j (omega arith) (omega arith) in
    let later : Reach (at max (suc count) (replicate (suc i) idle ++ replicate j granted))
        (at max (count + suc j) (replicate n idle)) =
      rw same at others in
    Reach-trans
      (next here (
        increment {v = at max (suc count) (replicate (suc i) idle ++ replicate j granted)}
          (replicate i idle) (replicate j granted) refl
          (ground (arith, replicate_snoc i idle (replicate j granted)))))
      later

-- A single goroutine increases the counter to the limit.
count_up :
    (max count top k : ℕ) (rest : List Client)
    → count + k ≡ top
    → top ≤ max
    → max < 2 ^ 64
    → Reach (at max count (idle ∷ rest)) (at max top (idle ∷ rest))
unfolding handle
count_up max count top zero rest e le fits = let same : count ≡ top = omega arith in rw same here
count_up max count top (suc k) rest e le fits =
    let once =
      next here (check {v = at max count (granted ∷ rest)} [] rest refl (omega arith) refl) in
    Reach-trans
      (next once (increment {v = at max (suc count) (idle ∷ rest)} [] rest refl (ground arith)))
      (count_up max (suc count) top k rest (omega arith) le fits)

-- From a counter at 0 with `n` goroutines before the check of `Increase`, where the limit and `n`
-- are above 0 and together fit a `uint`, the counter is never above the limit by more than `n - 1`,
-- and some order of their steps brings it there: for more than one goroutine the limit is passed.
pub count_sharp :
    (max n : ℕ)
    → 0 < max
    → 0 < n
    → max + n < 2 ^ 64
    → ((v : World) → Reach (at max 0 (replicate n idle)) v → v.count + 1 ≤ max + n)
      × ((v : World) × Reach (at max 0 (replicate n idle)) v × (v.count + 1 ≡ max + n))
unfolding pending
count_sharp zero n some_place some_client fits = absurd (omega arith)
count_sharp (suc m) zero some_place some_client fits = absurd (omega arith)
count_sharp (suc m) (suc n) some_place some_client fits =
    let long = length-replicate (suc n) idle in
    (
      λ v r.
          let bound =
            Reach-count (suc m) (replicate (suc n) idle) {v = v} (omega (arith, long))
              (omega (arith, long)) (pending_idle (suc n)) r in
          omega (arith, long, bound),
      (
        at (suc m) (m + suc n) (replicate (suc n) idle),
        Reach-trans
            (count_up (suc m) 0 m m (replicate n idle) (omega arith) (omega arith) (omega arith))
            (Reach-trans (grant_all (suc m) m (suc n) 0 (suc n) (omega arith) (omega arith))
              (count_all (suc m) m (suc n) 0 (suc n) (omega arith) (omega arith))),
        omega arith,
      ),
    )
