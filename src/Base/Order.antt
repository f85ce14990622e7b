-- ===== src/Base/Order.antt =====
-- The order of texts, byte by byte: `bytes.Compare` and `sort.Strings`.
use mathlib.Core.Bool.{Bool, true, false}
use mathlib.Core.List.{List, [], ◌∷◌}
use panthalassa.Base.Tests.{ltb, nat_beq, if◌then◌else◌}
use panthalassa.Base.Octets.{Bytes}

-- `bytes.Compare` is negative.
unfoldable pub before : Bytes → Bytes → Bool
before xs [] = false
before [] (y ∷ ys) = true
before (x ∷ xs) (y ∷ ys) =
    let rest = before xs ys in if ltb x y then true else if nat_beq x y then rest else false

unfoldable pub insert_text : Bytes → List Bytes → List Bytes
unfolding before
insert_text t [] = t ∷ []
insert_text t (u ∷ us) = let rest = insert_text t us in if before u t then u ∷ rest else t ∷ u ∷ us

unfoldable pub sort_texts : List Bytes → List Bytes
unfolding insert_text
sort_texts [] = []
sort_texts (t ∷ ts) = insert_text t (sort_texts ts)
