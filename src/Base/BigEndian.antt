-- ===== src/Base/BigEndian.antt =====
-- `binary.BigEndian`: the bytes of an unsigned number, the highest first.
use Prim.Native.Nat.{ℕ, zero, suc, ◌+◌, ◌*◌, ◌/◌, ◌%◌, ◌<◌, ◌^◌}
use mathlib.Core.Path.{◌≡◌, refl, sym, ap, ◌∙◌}
use mathlib.Core.List.{[], ◌∷◌, ◌++◌}
use native.Mathlib.Omega.{arith}
use panthalassa.Base.Lists.{length, take}
use panthalassa.Base.Octets.{Bytes}

unfoldable pub big_endian : ℕ → ℕ → Bytes
big_endian zero n = []
big_endian (suc k) n = big_endian k (n / 256) ++ (n % 256 ∷ [])

unfoldable pub value_from : ℕ → Bytes → ℕ
value_from acc [] = acc
value_from acc (b ∷ bs) = value_from (acc * 256 + b) bs

value_from-append :
    (acc : ℕ) (xs : Bytes) (b : ℕ) → value_from acc (xs ++ (b ∷ [])) ≡ value_from acc xs * 256 + b
unfolding value_from
value_from-append acc [] b = refl
value_from-append acc (x ∷ xs) b = value_from-append (acc * 256 + x) xs b

-- 256 ^ k
unfoldable pub power : ℕ → ℕ
power zero = 1
power (suc k) = 256 * power k

value-big_endian-power : (k n : ℕ) → n < power k → value_from 0 (big_endian k n) ≡ n
unfolding big_endian value_from power
value-big_endian-power zero n h = omega arith
value-big_endian-power (suc k) n h = omega (
  arith,
  value_from-append 0 (big_endian k (n / 256)) (n % 256),
  value-big_endian-power k (n / 256) (omega arith),
)

-- `PutUint64` and `Uint64`
unfoldable pub put_uint64 : ℕ → Bytes
unfolding big_endian
put_uint64 n = big_endian 8 n

unfoldable pub uint64 : Bytes → ℕ
unfolding value_from
uint64 b = value_from 0 b

pub uint64-put_uint64 : (n : ℕ) → n < 2 ^ 64 → uint64 (put_uint64 n) ≡ n
unfolding uint64 put_uint64 power
uint64-put_uint64 n h = value-big_endian-power 8 n h

pub put_uint64_injective : (m n : ℕ) → m < 2 ^ 64 → n < 2 ^ 64 → put_uint64 m ≡ put_uint64 n → m ≡ n
put_uint64_injective m n hm hn e =
    sym (uint64-put_uint64 m hm) ∙ ap uint64 e ∙ uint64-put_uint64 n hn

-- `PutUint32` and `Uint32`
unfoldable pub put_uint32 : ℕ → Bytes
unfolding big_endian
put_uint32 n = big_endian 4 n

unfoldable pub uint32 : Bytes → ℕ
unfolding value_from
uint32 b = value_from 0 (take 4 b)

pub length-put_uint32 : (n : ℕ) → length (put_uint32 n) ≡ 4
unfolding put_uint32
length-put_uint32 n = refl

pub uint32-put_uint32 : (n : ℕ) → n < 2 ^ 32 → uint32 (put_uint32 n) ≡ n
unfolding uint32 put_uint32 power
uint32-put_uint32 n h = value-big_endian-power 4 n h
