-- ===== src/Bolt/Within.antt =====
-- Values two buckets deep: the state is the top bucket of a storage, `none` while it has not been
-- created, a bucket of it stands for each chat partner or user, and holds the values.
use panthalassa.Base.{
  ◌≡◌, refl, Option, none, some, List, [], Bytes, arith, bytes_beq, bytes_beq_iff, if◌then◌else◌,
  Result, ok, ◌>>=◌, >>=-eq-ok,
}
use panthalassa.Bolt.{Transactions, Buckets, Nested, change, update-change}

pub change_ok :
    {E S : Type 0} (T : Transactions E) (f : S → Result E S) (s t : S)
    → T.update S (Unit {0}) (change f) s ≡ (ok tt, t)
    → f s ≡ ok t
unfolding change
change_ok T f s t h = let same = update-change T f s in ground arith

module _ {E : Type 0} (B : Buckets E) (N : Nested E B.Bucket B.empty) where
  unfoldable pub created : Option N.Outer → N.Outer
  created none = N.none_inside
  created (some o) = o

  unfoldable pub bucket_or_empty : Option B.Bucket → B.Bucket
  bucket_or_empty none = B.empty
  bucket_or_empty (some b) = b

  unfoldable pub raw_at : Bytes → Bytes → Option N.Outer → Option Bytes
  raw_at k j none = none
  raw_at k j (some o) = elim (N.bucket k o) [ none ↦ none | some b ↦ B.get j b ]

  unfoldable pub entries_at : Bytes → Option N.Outer → List (Bytes × Bytes)
  entries_at k none = []
  entries_at k (some o) = elim (N.bucket k o) [ none ↦ [] | some b ↦ B.entries b ]

  -- `CreateBucketIfNotExists` of both buckets, and `Put` of what is then computed.
  unfoldable pub put_at :
      Bytes → Bytes → Result E Bytes → Option N.Outer → Result E (Option N.Outer)
  unfolding created bucket_or_empty
  put_at k j value s = do
    o ← N.create_bucket k (created s)
    raw ← value
    b ← B.put j raw (bucket_or_empty (N.bucket k o))
    ok (some (N.write_bucket k b o))

  pub raw_at-created :
      (k j : Bytes) (s : Option N.Outer) → raw_at k j (some (created s)) ≡ raw_at k j s
  unfolding raw_at created
  raw_at-created k j none = ground (arith, N.bucket-none_inside k)
  raw_at-created k j (some o) = refl

  raw_at-create :
      (k i j : Bytes) (o p : N.Outer)
      → N.create_bucket k o ≡ ok p
      → raw_at i j (some p) ≡ raw_at i j (some o)
  unfolding raw_at
  raw_at-create k i j o p h =
      ground (arith, N.bucket-create k i o p, bytes_beq_iff k i, B.get-empty j)

  raw_at-write :
      (k i j : Bytes) (b : B.Bucket) (o : N.Outer)
      → raw_at i j (some (N.write_bucket k b o))
        ≡ (if bytes_beq k i then B.get j b else raw_at i j (some o))
  unfolding raw_at
  raw_at-write k i j b o = ground (arith, N.bucket-write k i b o)

  get-bucket_or_empty :
      (k j : Bytes) (o : N.Outer) → B.get j (bucket_or_empty (N.bucket k o)) ≡ raw_at k j (some o)
  unfolding raw_at bucket_or_empty
  get-bucket_or_empty k j o = ground (arith, B.get-empty j)

  -- What a `Put` leaves under every pair of keys.
  pub raw_at-put_at :
      (k j : Bytes) (value : Result E Bytes) (s t : Option N.Outer)
      → put_at k j value s ≡ ok t
      → (raw : Bytes) × (value ≡ ok raw)
        × ((i m : Bytes)
            → raw_at i m t ≡ (
                if bytes_beq k i
                then (if bytes_beq j m then some raw else raw_at i m s)
                else raw_at i m s))
  unfolding put_at
  raw_at-put_at k j value s t h =
      let (o, e1, r1) = >>=-eq-ok (N.create_bucket k (created s)) _ h in
      let (raw, e2, r2) = >>=-eq-ok value _ r1 in
      let (b, e3, r3) = >>=-eq-ok (B.put j raw (bucket_or_empty (N.bucket k o))) _ r2 in
      (
        raw,
        e2,
        λ i m. ground (
          arith,
          raw_at-write k i m b o,
          bytes_beq_iff k i,
          B.get-put j m raw (bucket_or_empty (N.bucket k o)) b,
          get-bucket_or_empty k m o,
          raw_at-create k i m (created s) o e1,
          raw_at-created i m s,
        ),
      )

  -- `CreateBucketIfNotExists` of both buckets, and `Delete`.
  unfoldable pub delete_at : Bytes → Bytes → Option N.Outer → Result E (Option N.Outer)
  unfolding created bucket_or_empty
  delete_at k j s = do
    o ← N.create_bucket k (created s)
    b ← B.delete j (bucket_or_empty (N.bucket k o))
    ok (some (N.write_bucket k b o))

  pub raw_at-delete_at :
      (k j : Bytes) (s t : Option N.Outer)
      → delete_at k j s ≡ ok t
      → (i m : Bytes)
      → raw_at i m t
        ≡ (if bytes_beq k i then (if bytes_beq j m then none else raw_at i m s) else raw_at i m s)
  unfolding delete_at
  raw_at-delete_at k j s t h i m =
      let (o, e1, r1) = >>=-eq-ok (N.create_bucket k (created s)) _ h in
      let (b, e2, r2) = >>=-eq-ok (B.delete j (bucket_or_empty (N.bucket k o))) _ r1 in
      ground (
        arith,
        raw_at-write k i m b o,
        bytes_beq_iff k i,
        B.get-delete j m (bucket_or_empty (N.bucket k o)) b,
        get-bucket_or_empty k m o,
        raw_at-create k i m (created s) o e1,
        raw_at-created i m s,
      )
