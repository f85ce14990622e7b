-- ===== src/Base/Maps.antt =====
-- Go's maps as association lists. An insertion overwrites in place or adds at the end, a deletion
-- takes every entry of the key; iteration order is the list's.
use Prim.Native.Nat.{◌+◌}
use mathlib.Core.Path.{◌≡◌, refl}
use mathlib.Core.List.{List, [], ◌∷◌}
use mathlib.Core.Option.{Option, none, some}
use native.Mathlib.Omega.{arith}
use panthalassa.Base.Tests.{Eq, ◌==◌, if◌then◌else◌, ==_refl}
use panthalassa.Base.Lists.{length}

abbrev pub Assoc {ℓ κ} : Type ℓ → Type κ → Type (ℓ ⊔ κ)
Assoc K V = List (K × V)

module _ {ℓ κ} {K : Type ℓ} {V : Type κ} ⦃e : Eq K⦄ where
  unfoldable pub lookup : K → Assoc K V → Option V
  lookup k [] = none
  lookup k ((j, v) ∷ m) = let rest = lookup k m in if j == k then some v else rest

  unfoldable pub insert : K → V → Assoc K V → Assoc K V
  insert k v [] = (k, v) ∷ []
  insert k v ((j, w) ∷ m) = let rest = insert k v m in if j == k then (k, v) ∷ m else (j, w) ∷ rest

  unfoldable pub remove : K → Assoc K V → Assoc K V
  remove k [] = []
  remove k ((j, w) ∷ m) = let rest = remove k m in if j == k then rest else (j, w) ∷ rest

  pub lookup-insert :
      (key other : K) (value : V) (entries : Assoc K V)
      → lookup other (insert key value entries)
        ≡ (if key == other then some value else lookup other entries)
  unfolding lookup insert
  lookup-insert key other value [] = refl
  lookup-insert key other value ((i, w) ∷ entries) = ground (
    arith,
    lookup-insert key other value entries,
    e.equal_iff i other,
    e.equal_iff i key,
    e.equal_iff key other,
  )

  pub lookup-remove :
      (k j : K) (m : Assoc K V) → lookup j (remove k m) ≡ (if k == j then none else lookup j m)
  unfolding lookup remove
  lookup-remove k j [] = ground arith
  lookup-remove k j ((i, w) ∷ m) =
      ground (arith, e.equal_iff k j, e.equal_iff i k, e.equal_iff i j, lookup-remove k j m)

  pub lookup-insert_self : (k : K) (v : V) (m : Assoc K V) → lookup k (insert k v m) ≡ some v
  lookup-insert_self k v m = simp (lookup-insert, ==_refl)

  pub lookup-remove_self : (k : K) (m : Assoc K V) → lookup k (remove k m) ≡ none
  lookup-remove_self k m = simp (lookup-remove, ==_refl)

  -- Writing back what is there changes nothing.
  pub insert_idem : (k : K) (v : V) (m : Assoc K V) → lookup k m ≡ some v → insert k v m ≡ m
  unfolding lookup insert
  insert_idem k v [] h = cc
  insert_idem k v ((j, w) ∷ m) h = ground (arith, e.equal_iff j k, insert_idem k v m)

  -- A key that is not there adds one entry.
  pub length-insert_new :
      (k : K) (v : V) (m : Assoc K V) → lookup k m ≡ none → length (insert k v m) ≡ length m + 1
  unfolding lookup insert
  length-insert_new k v [] h = omega arith
  length-insert_new k v ((j, w) ∷ m) h = ground (arith, length-insert_new k v m)
