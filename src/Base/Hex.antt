-- ===== src/Base/Hex.antt =====
-- Go's `encoding/hex`; a text is the list of its bytes.
use Prim.Native.Nat.{ℕ, ◌+◌, ◌-◌, ◌*◌, ◌/◌, ◌%◌, ◌<◌}
use mathlib.Core.Path.{◌≡◌, refl}
use mathlib.Core.Bool.{◌&&◌}
use mathlib.Core.Option.{Option, none, some}
use mathlib.Core.List.{[], ◌∷◌}
use native.Mathlib.Omega.{arith}
use panthalassa.Base.Tests.{leb, ltb, if◌then◌else◌}
use panthalassa.Base.Octets.{Bytes, IsBytes}
use panthalassa.Base.Results.{Result, ok, err, ◌>>=◌}

pub data HexError : Type 0 where
  odd_length : HexError
  invalid_byte : ℕ → HexError

unfoldable pub hex_digit : ℕ → ℕ
hex_digit n = if ltb n 10 then n + 48 else n + 87

unfoldable pub hex_value : ℕ → Option ℕ
hex_value c =
    if leb b'0' c && leb c b'9'
    then some (c - 48)
    else if leb b'a' c && leb c b'f'
    then some (c - 87)
    else if leb b'A' c && leb c b'F'
    then some (c - 55)
    else none

unfoldable pub hex_byte : ℕ → ℕ → Result HexError ℕ
unfolding hex_value
hex_byte a b = elim (hex_value a) [
  | none ↦ err (invalid_byte a)
  | some x ↦ elim (hex_value b) [ none ↦ err (invalid_byte b) | some y ↦ ok (x * 16 + y) ]
]

unfoldable pub hex_encode : Bytes → Bytes
unfolding hex_digit
hex_encode [] = []
hex_encode (b ∷ bs) = hex_digit (b / 16) ∷ hex_digit (b % 16) ∷ hex_encode bs

unfoldable pub hex_decode : Bytes → Result HexError Bytes
unfolding hex_byte
hex_decode [] = ok []
hex_decode (a ∷ []) = elim (hex_value a) [ none ↦ err (invalid_byte a) | some x ↦ err odd_length ]
hex_decode (a ∷ b ∷ rest) = do x ← hex_byte a b; xs ← hex_decode rest; ok (x ∷ xs)

hex_byte-digit : (b : ℕ) → b < 256 → hex_byte (hex_digit (b / 16)) (hex_digit (b % 16)) ≡ ok b
unfolding hex_byte hex_digit
hex_byte-digit b h = ground arith

pub hex_decode-encode : (bs : Bytes) → IsBytes bs → hex_decode (hex_encode bs) ≡ ok bs
unfolding hex_decode hex_encode
hex_decode-encode [] h = refl
hex_decode-encode (b ∷ bs) h = rw (hex_byte-digit b h.0) (rw (hex_decode-encode bs h.1))

-- The bytes that `DecodeString` returns, also beside an error: those before the first bad pair.
unfoldable pub hex_prefix : Bytes → Bytes
unfolding hex_byte
hex_prefix [] = []
hex_prefix (a ∷ []) = []
hex_prefix (a ∷ b ∷ rest) =
    let more = hex_prefix rest in elim (hex_byte a b) [ ok x ↦ x ∷ more | err e ↦ [] ]
