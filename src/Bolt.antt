-- ===== src/Bolt.antt =====
-- What the storages use of the database bbolt: transactions, buckets of values, and buckets of
-- buckets. The laws are what its documentation promises: an update whose function returns an error
-- is rolled back, any other is committed; a bucket gives back what was put last under a key. A failing
-- disk is not covered.
pub mod Within
use panthalassa.Base.{
  ◌≡◌, Option, none, some, List, Bytes, lookup, bytes_eq, bytes_beq, if◌then◌else◌, Result, ok, err,
  Result-cases, inl, inr, arith, sym, ◌∙◌,
}

pub record Transactions (E : Type 0) : Type 1 where
  pub update : (S R : Type 0) → (S → Result E R × S) → S → Result E R × S
  pub update_commit :
      (S R : Type 0) (f : S → Result E R × S) (s t : S) (a : R)
      → f s ≡ (ok a, t)
      → update S R f s ≡ (ok a, t)
  pub update_rollback :
      (S R : Type 0) (f : S → Result E R × S) (s t : S) (e : E)
      → f s ≡ (err e, t)
      → update S R f s ≡ (err e, s)

-- A bucket of values: `Get`, `Put`, `Delete`, and what a cursor or `ForEach` goes over.
pub record Buckets (E : Type 0) : Type 1 where
  pub Bucket : Type 0
  pub empty : Bucket
  pub get : Bytes → Bucket → Option Bytes
  pub put : Bytes → Bytes → Bucket → Result E Bucket
  pub delete : Bytes → Bucket → Result E Bucket
  pub entries : Bucket → List (Bytes × Bytes)
  pub get-empty : (k : Bytes) → get k empty ≡ none
  pub get-put :
      (k j v : Bytes) (b c : Bucket)
      → put k v b ≡ ok c
      → get j c ≡ (if bytes_beq k j then some v else get j b)
  pub get-delete :
      (k j : Bytes) (b c : Bucket)
      → delete k b ≡ ok c
      → get j c ≡ (if bytes_beq k j then none else get j b)
  pub delete_ok : (k : Bytes) (b : Bucket) → (c : Bucket) × (delete k b ≡ ok c)
  pub lookup-entries : (k : Bytes) (b : Bucket) → lookup k (entries b) ≡ get k b

-- A bucket of buckets: `Bucket`, `CreateBucketIfNotExists`, and what a change made through the
-- inner bucket's handle does to the outer one.
pub record Nested (E Inner : Type 0) (fresh : Inner) : Type 1 where
  pub Outer : Type 0
  pub none_inside : Outer
  pub bucket : Bytes → Outer → Option Inner
  pub create_bucket : Bytes → Outer → Result E Outer
  pub write_bucket : Bytes → Inner → Outer → Outer
  pub delete_bucket : Bytes → Outer → Result E Outer
  pub bucket_names : Outer → List Bytes
  pub bucket-none_inside : (k : Bytes) → bucket k none_inside ≡ none
  pub bucket-create :
      (k j : Bytes) (o p : Outer)
      → create_bucket k o ≡ ok p
      → bucket j p ≡ (
          if bytes_beq k j
          then some (elim (bucket k o) [ none ↦ fresh | some i ↦ i ])
          else bucket j o)
  pub bucket-write :
      (k j : Bytes) (i : Inner) (o : Outer)
      → bucket j (write_bucket k i o) ≡ (if bytes_beq k j then some i else bucket j o)
  pub bucket-delete :
      (k j : Bytes) (o p : Outer)
      → delete_bucket k o ≡ ok p
      → bucket j p ≡ (if bytes_beq k j then none else bucket j o)

-- An update that changes the state and returns nothing but an error.
unfoldable pub change : {E S : Type 0} → (S → Result E S) → S → Result E (Unit {0}) × S
change f s = elim (f s) [ ok t ↦ (ok tt, t) | err e ↦ (err e, s) ]

pub update-change :
    {E S : Type 0} (T : Transactions E) (f : S → Result E S) (s : S)
    → T.update S (Unit {0}) (change f) s ≡ change f s
unfolding change
update-change T f s = elim (Result-cases (f s)) [
  | inl (t, e) ↦
      let c : change f s ≡ (ok tt, t) = ground arith in
      T.update_commit _ _ (change f) s t tt c ∙ sym c
  | inr (x, e) ↦
      let c : change f s ≡ (err x, s) = ground arith in
      T.update_rollback _ _ (change f) s s x c ∙ sym c
]
