-- ===== src/Bip32/Hardened.antt =====
-- Which children bip32.go derives.
use panthalassa.Base.{
  ℕ, ◌+◌, ◌-◌, ◌^◌, ◌<◌, ◌≤◌, ◌≡◌, ◌⊎◌, false, arith, Bytes, List, [], ◌∷◌, ◌++◌, ok, inl, inr,
  Result-cases,
}
use panthalassa.Bip32.{
  child_index, hardened_derivation_start, HdKeys, derive_along, element_index, derive_child,
}

-- A path element below 2^31 without a sign gives the hardened child of that number. From 2^31 up to
-- 2^32 the `uint32` sum wraps: the child has an index below the hardened ones.
pub child_index_lem :
    (n : ℕ)
    → n < 2 ^ 32
    → ((n < 2 ^ 31)
        × (child_index (record { negative = false; size = n }) ≡ hardened_derivation_start + n))
      ⊎ ((2 ^ 31 ≤ n)
          × (child_index (record { negative = false; size = n }) ≡ n - hardened_derivation_start)
          × (child_index (record { negative = false; size = n }) < hardened_derivation_start))
unfolding child_index
child_index_lem n h = ground arith

module _ (K : HdKeys) where
  -- Deriving along a path is deriving along its first part and then along the rest.
  derive_along-append :
      (xs ys : List Bytes) (key middle : K.Key)
      → derive_along K xs key ≡ ok middle
      → derive_along K (xs ++ ys) key ≡ derive_along K ys middle
  unfolding derive_along
  derive_along-append [] ys key middle h = ground arith
  derive_along-append (x ∷ xs) ys key middle h = elim (Result-cases (element_index x)) [
    | inl (i, e) ↦ elim (Result-cases (derive_child K key i)) [
      | inl (c, f) ↦ ground (arith, derive_along-append xs ys c middle)
      | inr (e', f) ↦ ground arith
    ]
    | inr (e, f) ↦ ground arith
  ]
