-- ===== src/Base/Distinct.antt =====
-- Association lists in which no key stands twice, and how many entries they have.
use Prim.Native.Nat.{◌+◌}
use mathlib.Core.Path.{◌≡◌, refl}
use mathlib.Core.Logic.{inl, inr}
use mathlib.Core.List.{[], ◌∷◌}
use mathlib.Core.Option.{none, some}
use native.Mathlib.Omega.{arith}
use panthalassa.Base.Tests.{Eq, Bool-cases}
use panthalassa.Base.Lists.{length}
use panthalassa.Base.Maps.{Assoc, lookup, insert, remove, lookup-insert, lookup-remove}

module _ {ℓ κ} {K : Type ℓ} {V : Type κ} ⦃e : Eq K⦄ where
  abbrev pub IsDistinct : Assoc K V → Type κ
  IsDistinct [] = Unit
  IsDistinct ((k, v) ∷ m) = (lookup k m ≡ none) × IsDistinct m

  pub IsDistinct-insert :
      (k : K) (v : V) (m : Assoc K V) → lookup k m ≡ none → IsDistinct m → IsDistinct (insert k v m)
  unfolding lookup insert
  IsDistinct-insert k v [] fresh d = (refl, tt)
  IsDistinct-insert k v ((j, w) ∷ m) fresh (alone, d) = elim (Bool-cases (e.equal j k)) [
    | inl same ↦ absurd (ground arith)
    | inr other ↦
        let rest : IsDistinct (insert k v m) = IsDistinct-insert k v m (ground arith) d in
        rw other (ground (arith, lookup-insert k j v m, e.equal_iff j k, e.equal_iff k j), rest)
  ]

  pub length-insert :
      (k : K) (v : V) (m : Assoc K V) → lookup k m ≡ none → length (insert k v m) ≡ length m + 1
  unfolding lookup insert
  length-insert k v [] fresh = refl
  length-insert k v ((j, w) ∷ m) fresh = ground (arith, length-insert k v m)

  pub remove_missing : (k : K) (m : Assoc K V) → lookup k m ≡ none → remove k m ≡ m
  unfolding lookup remove
  remove_missing k [] missing = refl
  remove_missing k ((j, w) ∷ m) missing = ground (arith, remove_missing k m)

  pub IsDistinct-remove : (k : K) (m : Assoc K V) → IsDistinct m → IsDistinct (remove k m)
  unfolding remove
  IsDistinct-remove k [] d = tt
  IsDistinct-remove k ((j, w) ∷ m) (alone, d) = elim (Bool-cases (e.equal j k)) [
    | inl same ↦ rw same (IsDistinct-remove k m d)
    | inr other ↦ rw other (ground (arith, lookup-remove k j m), IsDistinct-remove k m d)
  ]

  pub length-remove :
      (k : K) (v : V) (m : Assoc K V)
      → IsDistinct m
      → lookup k m ≡ some v
      → length m ≡ length (remove k m) + 1
  unfolding lookup remove
  length-remove k v [] d found = absurd (ground arith)
  length-remove k v ((j, w) ∷ m) (alone, d) found =
      ground (arith, remove_missing k m, e.equal_iff j k, length-remove k v m d)
