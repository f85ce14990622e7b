-- ===== src/Base/Varint.antt =====
-- `binary.PutVarint`: a signed number, as its pattern of 64 bits, in groups of seven bits. The loop
-- takes as fuel the number of bytes that the buffer has room for; without fuel the write panics.
use Prim.Native.Nat.{ℕ, zero, suc, ◌+◌, ◌-◌, ◌*◌, ◌/◌, ◌%◌, ◌<◌, ◌^◌}
use mathlib.Core.Path.{◌≡◌, sym, ◌∙◌}
use mathlib.Core.Logic.{◌≢◌, inl, inr}
use mathlib.Core.Option.{Option, none, some}
use mathlib.Core.List.{[], ◌∷◌}
use native.Mathlib.Omega.{arith}
use panthalassa.Base.Tests.{ltb, Option-cases, if◌then◌else◌}
use panthalassa.Base.Octets.{Bytes}

-- `PutUvarint`
unfoldable pub put_uvarint : ℕ → ℕ → Option Bytes
put_uvarint zero n = none
put_uvarint (suc room) n =
    let rest = put_uvarint room (n / 128) in
    if ltb n 128
    then some (n ∷ [])
    else elim rest [ none ↦ none | some bs ↦ some ((n % 128 + 128) ∷ bs) ]

-- The sign goes to the lowest bit.
unfoldable pub zigzag : ℕ → ℕ
zigzag n = if ltb n (2 ^ 63) then 2 * n else 2 * (2 ^ 64 - n) - 1

unfoldable pub put_varint : ℕ → Option Bytes
unfolding put_uvarint zigzag
put_varint n = put_uvarint 10 (zigzag n)

-- 128 ^ k
room_for : ℕ → ℕ
room_for zero = 1
room_for (suc k) = 128 * room_for k

put_uvarint_some : (k n : ℕ) → n < room_for k → 0 < k → put_uvarint k n ≢ none
unfolding put_uvarint room_for
put_uvarint_some zero n h p = absurd (omega arith)
put_uvarint_some (suc zero) n h p = ground arith
put_uvarint_some (suc (suc k)) n h p =
    let step = put_uvarint_some (suc k) (n / 128) (omega arith) (omega arith) in
    ground (arith, step)

-- Reads the groups back.
unfoldable pub uvarint : Bytes → ℕ
uvarint [] = 0
uvarint (b ∷ bs) = if ltb b 128 then b else b - 128 + 128 * uvarint bs

uvarint-put_uvarint : (k n : ℕ) (bs : Bytes) → put_uvarint k n ≡ some bs → uvarint bs ≡ n
unfolding put_uvarint uvarint
uvarint-put_uvarint zero n bs h = absurd (ground arith)
uvarint-put_uvarint (suc k) n bs h = elim (Option-cases (put_uvarint k (n / 128))) [
  | inl e ↦ ground arith
  | inr (rest, e) ↦ ground (arith, uvarint-put_uvarint k (n / 128) rest e)
]

zigzag_injective : (m n : ℕ) → m < 2 ^ 64 → n < 2 ^ 64 → zigzag m ≡ zigzag n → m ≡ n
unfolding zigzag
zigzag_injective m n hm hn e = ground arith

-- Ten bytes, `MaxVarintLen64`, are enough for every number.
pub put_varint_total : (n : ℕ) → n < 2 ^ 64 → (bs : Bytes) × (put_varint n ≡ some bs)
unfolding put_varint room_for
put_varint_total n h =
    let found = put_uvarint_some 10 (zigzag n) (unfold zigzag in ground arith) (omega arith) in
    elim (Option-cases (put_varint n)) [ inl e ↦ absurd (found e) | inr (bs, e) ↦ (bs, e) ]

pub put_varint_injective :
    (m n : ℕ) (bs : Bytes)
    → m < 2 ^ 64
    → n < 2 ^ 64
    → put_varint m ≡ some bs
    → put_varint n ≡ some bs
    → m ≡ n
unfolding put_varint
put_varint_injective m n bs hm hn em en =
    zigzag_injective m n hm hn
      (sym (uvarint-put_uvarint 10 (zigzag m) bs em) ∙ uvarint-put_uvarint 10 (zigzag n) bs en)
