-- ===== src/Base/LittleEndian.antt =====
-- `binary.LittleEndian`: the bytes of an unsigned number, the lowest first.
use Prim.Native.Nat.{ℕ, zero, suc, ◌+◌, ◌*◌, ◌/◌, ◌%◌, ◌<◌, ◌^◌}
use mathlib.Core.Path.{◌≡◌, sym, ap, ◌∙◌}
use mathlib.Core.List.{[], ◌∷◌}
use native.Mathlib.Omega.{arith}
use panthalassa.Base.Octets.{Bytes}
use panthalassa.Base.BigEndian.{power}

unfoldable pub little_endian : ℕ → ℕ → Bytes
little_endian zero n = []
little_endian (suc k) n = n % 256 ∷ little_endian k (n / 256)

unfoldable pub value_of_little : Bytes → ℕ
value_of_little [] = 0
value_of_little (b ∷ bs) = b + 256 * value_of_little bs

pub value_of_little-little_endian :
    (k n : ℕ) → n < power k → value_of_little (little_endian k n) ≡ n
unfolding little_endian value_of_little power
value_of_little-little_endian zero n h = omega arith
value_of_little-little_endian (suc k) n h =
    omega (arith, value_of_little-little_endian k (n / 256) (omega arith))

pub little_endian_injective :
    (m n : ℕ) → m < 2 ^ 64 → n < 2 ^ 64 → little_endian 8 m ≡ little_endian 8 n → m ≡ n
unfolding power
little_endian_injective m n hm hn e =
    sym (value_of_little-little_endian 8 m hm)
    ∙ ap value_of_little e
    ∙ value_of_little-little_endian 8 n hn
