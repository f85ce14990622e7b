-- ===== src/Base/Decimal.antt =====
-- Decimal texts: `Itoa` and `Atoi` of strconv, where an `int` is its pattern of 64 bits, and `Split`
-- of strings at a dot.
use Prim.Native.Nat.{ℕ, zero, suc, ◌+◌, ◌-◌, ◌*◌, ◌/◌, ◌%◌, ◌<◌, ◌^◌}
use mathlib.Core.Path.{◌≡◌, refl, ◌∙◌}
use mathlib.Core.Logic.{inl, inr}
use mathlib.Core.Bool.{Bool, true, false, ◌&&◌}
use mathlib.Core.Option.{Option, none, some}
use mathlib.Core.List.{List, [], ◌∷◌, ◌++◌}
use native.Mathlib.Omega.{arith}
use panthalassa.Base.Tests.{ltb, leb, nat_beq, if◌then◌else◌, Bool-cases}
use panthalassa.Base.Octets.{Bytes}

-- At most `k + 1` digits.
unfoldable pub decimal_on : ℕ → ℕ → Bytes
decimal_on zero n = (b'0' + n % 10) ∷ []
decimal_on (suc k) n =
    let rest = decimal_on k (n / 10) in
    if ltb n 10 then (b'0' + n) ∷ [] else rest ++ ((b'0' + n % 10) ∷ [])

-- A number of 64 bits has at most 20 digits.
unfoldable pub decimal : ℕ → Bytes
unfolding decimal_on
decimal n = decimal_on 19 n

unfoldable pub itoa : ℕ → Bytes
unfolding decimal
itoa n = if ltb n (2 ^ 63) then decimal n else b'-' ∷ decimal (2 ^ 64 - n)

unfoldable pub number_from : ℕ → Bytes → Option ℕ
number_from acc [] = some acc
number_from acc (c ∷ s) =
    let rest = number_from (acc * 10 + (c - b'0')) s in
    if leb b'0' c && leb c b'9' then rest else none

unfoldable pub number : Bytes → Option ℕ
unfolding number_from
number [] = none
number (c ∷ s) = number_from 0 (c ∷ s)

unfoldable pub signed : Bool → Option ℕ → Option ℕ
signed negative none = none
signed true (some n) = if leb n (2 ^ 63) then some ((2 ^ 64 - n) % 2 ^ 64) else none
signed false (some n) = if ltb n (2 ^ 63) then some n else none

unfoldable pub atoi : Bytes → Option ℕ
unfolding number signed
atoi [] = none
atoi (c ∷ s) =
    if nat_beq c b'-'
    then signed true (number s)
    else if nat_beq c b'+'
    then signed false (number s)
    else signed false (number (c ∷ s))

unfoldable pub cons_first : ℕ → List Bytes → List Bytes
cons_first c [] = []
cons_first c (f ∷ fs) = (c ∷ f) ∷ fs

unfoldable pub split_dots : Bytes → List Bytes
unfolding cons_first
split_dots [] = [] ∷ []
split_dots (c ∷ s) =
    let rest = split_dots s in if nat_beq c b'.' then [] ∷ rest else cons_first c rest

-- 10 ^ k
ten_power : ℕ → ℕ
ten_power zero = 1
ten_power (suc k) = 10 * ten_power k

-- One more digit at the end.
add_digit : ℕ → Option ℕ → Option ℕ
add_digit c none = none
add_digit c (some n) = if leb b'0' c && leb c b'9' then some (n * 10 + (c - b'0')) else none

number_from-append :
    (acc c : ℕ) (xs : Bytes) → number_from acc (xs ++ (c ∷ [])) ≡ add_digit c (number_from acc xs)
unfolding number_from add_digit
number_from-append acc c [] = ground arith
number_from-append acc c (x ∷ xs) = ground (arith, number_from-append (acc * 10 + (x - b'0')) c xs)

number_from-decimal_on : (k n : ℕ) → n < ten_power (suc k) → number_from 0 (decimal_on k n) ≡ some n
unfolding number_from decimal_on ten_power add_digit
number_from-decimal_on zero n h = ground arith
number_from-decimal_on (suc k) n h = ground (
  arith,
  number_from-append 0 (b'0' + n % 10) (decimal_on k (n / 10)),
  number_from-decimal_on k (n / 10) (omega arith),
)

number-append : (xs : Bytes) (c : ℕ) → number (xs ++ (c ∷ [])) ≡ number_from 0 (xs ++ (c ∷ []))
unfolding number
number-append [] c = refl
number-append (x ∷ xs) c = refl

number-number_from : (k n : ℕ) → number (decimal_on k n) ≡ number_from 0 (decimal_on k n)
unfolding decimal_on
number-number_from zero n = unfold number in refl
number-number_from (suc k) n = elim (Bool-cases (ltb n 10)) [
  | inl e ↦ rw e (unfold number in refl)
  | inr e ↦ rw e (number-append (decimal_on k (n / 10)) (b'0' + n % 10))
]

number-decimal_on : (k n : ℕ) → n < ten_power (suc k) → number (decimal_on k n) ≡ some n
number-decimal_on k n h = number-number_from k n ∙ number_from-decimal_on k n h

fits_20 : (n : ℕ) → n < 2 ^ 64 → n < ten_power 20
unfolding ten_power
fits_20 n h = omega arith

pub number-decimal : (n : ℕ) → n < 2 ^ 64 → number (decimal n) ≡ some n
unfolding decimal
number-decimal n h = number-decimal_on 19 n (fits_20 n h)

pub atoi-number : (s : Bytes) (n : ℕ) → number s ≡ some n → n < 2 ^ 63 → atoi s ≡ some n
unfolding atoi signed number number_from
atoi-number [] n h fits = absurd (ground arith)
atoi-number (c ∷ s) n h fits = ground arith

split_dots-number_from :
    (acc n : ℕ) (xs rest : Bytes)
    → number_from acc xs ≡ some n
    → (split_dots xs ≡ xs ∷ []) × (split_dots (xs ++ (b'.' ∷ rest)) ≡ xs ∷ split_dots rest)
unfolding number_from split_dots cons_first
split_dots-number_from acc n [] rest h = (refl, ground arith)
split_dots-number_from acc n (x ∷ xs) rest h = elim (Bool-cases (leb b'0' x && leb x b'9')) [
  | inr e ↦ absurd (ground arith)
  | inl e ↦
      let (one, more) = split_dots-number_from (acc * 10 + (x - b'0')) n xs rest (ground arith) in
      (ground arith, ground arith)
]

-- A text that is a number has no dot.
pub split_dots-number :
    (xs rest : Bytes) (n : ℕ)
    → number xs ≡ some n
    → (split_dots xs ≡ xs ∷ []) × (split_dots (xs ++ (b'.' ∷ rest)) ≡ xs ∷ split_dots rest)
unfolding number
split_dots-number [] rest n h = absurd (ground arith)
split_dots-number (c ∷ s) rest n h = split_dots-number_from 0 n (c ∷ s) rest h
