-- ===== src/Base/Octets.antt =====
-- Byte sequences, and exclusive or on them.
use Prim.Native.Nat.{ℕ, zero, suc, ◌<◌, bit_xor}
use mathlib.Core.Path.{◌≡◌, refl, ap₂}
use mathlib.Core.Bool.{Bool, true, ◌&&◌}
use mathlib.Core.List.{List, [], ◌∷◌}
use native.Mathlib.Omega.{arith}
use panthalassa.Base.Tests.{nat_beq, nat_beq_iff}
use panthalassa.Base.Lists.{All}

abbrev pub Bytes : Type 0
Bytes = List ℕ

abbrev pub IsBytes : Bytes → Type 0
IsBytes = All (λ b. b < 256)

holds_below : (ℕ → Bool) → ℕ → Bool
holds_below test zero = true
holds_below test (suc n) = test n && holds_below test n

holds_below_sound :
    (test : ℕ → Bool) (bound n : ℕ) → holds_below test bound ≡ true → n < bound → test n ≡ true
unfolding holds_below
holds_below_sound test zero n all lt = absurd (omega arith)
holds_below_sound test (suc bound) n all lt = ground (arith, holds_below_sound test bound n)

abbrev undone : ℕ → ℕ → Bool
undone k x = nat_beq (bit_xor (bit_xor x k) k) x

xor_table : holds_below (λ k. holds_below (λ x. undone k x) 256) 256 ≡ true
unfolding holds_below
xor_table = refl

pub bit_xor_twice : (x k : ℕ) → x < 256 → k < 256 → bit_xor (bit_xor x k) k ≡ x
bit_xor_twice x k hx hk =
    let row = holds_below_sound (λ k. holds_below (λ x. undone k x) 256) 256 k xor_table hk in
    (nat_beq_iff _ x).0 (holds_below_sound (λ x. undone k x) 256 x row hx)

-- `XORKeyStream`: each byte is combined with the next byte of the key stream.
unfoldable pub xor_stream : (ℕ → ℕ) → ℕ → Bytes → Bytes
xor_stream key i [] = []
xor_stream key i (b ∷ bs) = bit_xor b (key i) ∷ xor_stream key (suc i) bs

pub xor_stream_twice :
    (key : ℕ → ℕ) (i : ℕ) (bs : Bytes)
    → ((j : ℕ) → key j < 256)
    → IsBytes bs
    → xor_stream key i (xor_stream key i bs) ≡ bs
unfolding xor_stream
xor_stream_twice key i [] hk hb = refl
xor_stream_twice key i (b ∷ bs) hk hb =
    ap₂ ◌∷◌ (bit_xor_twice b (key i) hb.0 (hk i)) (xor_stream_twice key (suc i) bs hk hb.1)
