-- ===== src/Db/Migration/Sorted.antt =====
-- Sorting the migrations keeps them.
use panthalassa.Base.{
  ◌+◌, ◌≡◌, ◌↔◌, refl, List, [], ◌∷◌, arith, All, length, ltb, Bool-cases, inl, inr,
}
use panthalassa.Bolt.{Transactions, Buckets}
use panthalassa.Db.Migration.{MigrationError, Migration, sort, insert_sorted}

module _ (T : Transactions MigrationError) (B : Buckets MigrationError) (Rest : Type 0) where
  All-insert_sorted :
      (P : Migration T B Rest → Type 0) (m : Migration T B Rest) (ms : List (Migration T B Rest))
      → (P m × All P ms) ↔ All P (insert_sorted T B Rest m ms)
  unfolding insert_sorted
  All-insert_sorted P m [] = (λ h. h, λ h. h)
  All-insert_sorted P m (n ∷ ns) = elim (Bool-cases (ltb n.version m.version)) [
    | inl e ↦
        let (into, out) = All-insert_sorted P m ns in
        rw e (λ h. (h.1.0, into (h.0, h.1.1)), λ h. ((out h.1).0, (h.0, (out h.1).1)))
    | inr e ↦ rw e (λ h. h, λ h. h)
  ]

  pub All-sort :
      (P : Migration T B Rest → Type 0) (ms : List (Migration T B Rest))
      → All P ms ↔ All P (sort T B Rest ms)
  unfolding sort
  All-sort P [] = (λ h. h, λ h. h)
  All-sort P (m ∷ ms) =
      let (to, from) = All-sort P ms in
      let (into, out) = All-insert_sorted P m (sort T B Rest ms) in
      (λ h. into (h.0, to h.1), λ h. ((out h).0, from (out h).1))

  length-insert_sorted :
      (m : Migration T B Rest) (ms : List (Migration T B Rest))
      → length (insert_sorted T B Rest m ms) ≡ length ms + 1
  unfolding insert_sorted
  length-insert_sorted m [] = omega arith
  length-insert_sorted m (n ∷ ns) = ground (arith, length-insert_sorted m ns)

  pub length-sort : (ms : List (Migration T B Rest)) → length (sort T B Rest ms) ≡ length ms
  unfolding sort
  length-sort [] = refl
  length-sort (m ∷ ms) = omega (arith, length-insert_sorted m (sort T B Rest ms), length-sort ms)
