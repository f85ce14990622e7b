-- ===== src/Db/OneTimePreKeys/CutOnce.antt =====
-- A one time pre key is handed out once.
use panthalassa.Base.{
  ◌≡◌, ◌≢◌, refl, false, Option, none, some, List, [], ◌∷◌, arith, Bytes, IsBytes, length,
  bytes_beq, bytes_beq_iff, if◌then◌else◌, Result, ok, >>=-eq-ok, All, Bool-cases, inl, inr,
  Result-cases, Option-cases, ◌∙◌, ap,
}
use panthalassa.Crypto.Aes.{AesError}
use panthalassa.Bolt.{Transactions, Buckets}
use panthalassa.Db.Vault.{Vault, DbError, seal, unseal, unseal-seal}
use panthalassa.Db.OneTimePreKeys.{
  KeyPair, cut, cut_update, cut_entry, cut_plain, delete_logged, put, put_pair, put_pairs,
  put_update, create_if_missing,
}

-- The private key of the last pair with the public key `k`.
unfoldable pub last_private : Bytes → List (Result AesError Bytes × KeyPair) → Option Bytes
last_private k [] = none
last_private k ((random, pair) ∷ rest) = elim (last_private k rest) [
  | some p ↦ some p
  | none ↦ if bytes_beq pair.public_key k then some pair.private_key else none
]

abbrev pub IsPrivate : Result AesError Bytes × KeyPair → Type 0
IsPrivate p = (length p.1.private_key ≡ 32) × IsBytes p.1.private_key

module _ (T : Transactions DbError) (B : Buckets DbError) (V : Vault) where
  -- The entry of `k` decrypts to `p`.
  abbrev pub Holds : Bytes → Bytes → B.Bucket → Type 0
  Holds k p b = (raw : Bytes) × (B.get k b ≡ some raw) × (unseal V raw ≡ ok p)

  Holds-put_pair :
      (random : Result AesError Bytes) (pair : KeyPair) (b c : B.Bucket)
      → IsBytes pair.private_key
      → put_pair T B V random pair b ≡ ok c
      → Holds pair.public_key pair.private_key c
  unfolding put_pair
  Holds-put_pair random pair b c bytes h =
      let (raw, e, p) = >>=-eq-ok (seal V random pair.private_key) _ h in
      (
        raw,
        ground (
          arith,
          B.get-put pair.public_key pair.public_key raw b c,
          (bytes_beq_iff pair.public_key pair.public_key).1 refl,
        ),
        unseal-seal V random pair.private_key raw bytes e,
      )

  get-put_pair_ne :
      (random : Result AesError Bytes) (pair : KeyPair) (b c : B.Bucket) (k : Bytes)
      → put_pair T B V random pair b ≡ ok c
      → bytes_beq pair.public_key k ≡ false
      → B.get k c ≡ B.get k b
  unfolding put_pair
  get-put_pair_ne random pair b c k h ne =
      let (raw, e, p) = >>=-eq-ok (seal V random pair.private_key) _ h in
      ground (arith, B.get-put pair.public_key k raw b c)

  -- What a list of pairs leaves under a key.
  abbrev After : Bytes → B.Bucket → B.Bucket → Option Bytes → Type 0
  After k b c none = B.get k c ≡ B.get k b
  After k b c (some p) = Holds k p c

  After-put_pairs :
      (ps : List (Result AesError Bytes × KeyPair)) (b c : B.Bucket) (k : Bytes)
      → All IsPrivate ps
      → put_pairs T B V ps b ≡ ok c
      → After k b c (last_private k ps)
  unfolding put_pairs last_private
  After-put_pairs [] b c k v h = ground arith
  After-put_pairs ((random, pair) ∷ rest) b c k v h =
      let (m, e, r) = >>=-eq-ok (put_pair T B V random pair b) _ h in
      go m e (last_private k rest) (After-put_pairs rest m c k v.1 r)
    where
      first :
          (m : B.Bucket)
          → put_pair T B V random pair b ≡ ok m
          → B.get k c ≡ B.get k m
          → After k b c (if bytes_beq pair.public_key k then some pair.private_key else none)
      first m e same = elim (Bool-cases (bytes_beq pair.public_key k)) [
        | inl here ↦ rw here (
            let (raw, g, u) = Holds-put_pair random pair b m v.0.1 e in
            (raw, ground (arith, (bytes_beq_iff pair.public_key k).0 here), u))
        | inr there ↦ rw there (same ∙ get-put_pair_ne random pair b m k e there)
      ]

      go :
          (m : B.Bucket)
          → put_pair T B V random pair b ≡ ok m
          → (o : Option Bytes) → After k m c o
          → After k b c (elim o [
            | some p ↦ some p
            | none ↦ if bytes_beq pair.public_key k then some pair.private_key else none
          ])
      go m e (some p) a = a
      go m e none a = first m e a

  put_ok :
      (ps : List (Result AesError Bytes × KeyPair)) (s t : Option B.Bucket)
      → put T B V ps s ≡ (ok tt, t)
      → (c : B.Bucket) × (put_pairs T B V ps (create_if_missing T B V s) ≡ ok c) × (t ≡ some c)
  unfolding put put_update
  put_ok ps s t h = elim (Result-cases (put_pairs T B V ps (create_if_missing T B V s))) [
    | inl (c, e) ↦ (c, e, ground (arith, T.update_commit _ _ (put_update T B V ps) s (some c) tt))
    | inr (e, bad) ↦ ground (arith, T.update_rollback _ _ (put_update T B V ps) s s e)
  ]

  last_private-fits :
      (ps : List (Result AesError Bytes × KeyPair)) (k : Bytes) (p : Bytes)
      → All IsPrivate ps
      → last_private k ps ≡ some p
      → length p ≡ 32
  unfolding last_private
  last_private-fits [] k p v h = cc
  last_private-fits ((random, pair) ∷ rest) k p v h = ground (arith, last_private-fits rest k p v.1)

  cut_held :
      (k p : Bytes) (b : B.Bucket)
      → Holds k p b
      → length p ≡ 32
      → cut T B V k (some b) ≡ (ok (some p), some (delete_logged T B V k b))
  unfolding cut
  cut_held k p b (raw, g, u) fits =
      T.update_commit _ _ (cut_update T B V k) (some b) (some (delete_logged T B V k b)) (some p)
        (unfold cut_update unseal in ground arith)

  cut_missing :
      (k : Bytes) (b : B.Bucket) → B.get k b ≡ none → cut T B V k (some b) ≡ (ok none, some b)
  unfolding cut
  cut_missing k b h =
      T.update_commit _ _ (cut_update T B V k) (some b) (some b) none
        (unfold cut_update in ground arith)

  get-delete_logged :
      (k j : Bytes) (b : B.Bucket)
      → B.get j (delete_logged T B V k b) ≡ (if bytes_beq k j then none else B.get j b)
  unfolding delete_logged
  get-delete_logged k j b = let (c, e) = B.delete_ok k b in ground (arith, B.get-delete k j b c)

  -- Key pairs with private keys of 32 bytes that `Put` has stored without an error: `Cut` returns
  -- the private key of the last pair with a public key, and a second `Cut` of that public key
  -- returns no key, while any other stored key can still be cut.
  pub cut-put :
      (ps : List (Result AesError Bytes × KeyPair)) (s t : Option B.Bucket) (k p j q : Bytes)
      → All IsPrivate ps
      → put T B V ps s ≡ (ok tt, t)
      → last_private k ps ≡ some p
      → last_private j ps ≡ some q
      → j ≢ k
      → (u : Option B.Bucket) × (cut T B V k t ≡ (ok (some p), u))
        × (cut T B V k u ≡ (ok none, u))
        × ((cut T B V j u).0 ≡ ok (some q))
  cut-put ps s t k p j q valid stored kp jq ne =
      let (c, e, tc) = put_ok ps s t stored in
      let held : Holds k p c = rw kp at (After-put_pairs ps _ c k valid e) in
      let (raw, g, open_) = rw jq at (After-put_pairs ps _ c j valid e) in
      let other : bytes_beq k j ≡ false = ground (arith, bytes_beq_iff k j) in
      let d = delete_logged T B V k c in
      (
        some d,
        rw tc (cut_held k p c held (last_private-fits ps k p valid kp)),
        cut_missing k d (ground (arith, get-delete_logged k k c, (bytes_beq_iff k k).1 refl)),
        ap (λ (x : Result DbError (Option Bytes) × Option B.Bucket). x.0)
            (cut_held j q d (raw, ground (arith, get-delete_logged k j c), open_)
              (last_private-fits ps j q valid jq)),
      )

  -- What a `Cut` without an error leaves has no entry of the key.
  cut_update_leaves :
      (k : Bytes) (s t : Option B.Bucket) (found : Option Bytes)
      → cut_update T B V k s ≡ (ok found, t)
      → (b : B.Bucket) × (t ≡ some b) × (B.get k b ≡ none)
  unfolding cut_update cut_entry cut_plain
  cut_update_leaves k s t found h =
      let b = create_if_missing T B V s in
      elim (Option-cases (B.get k b)) [
        | inl missing ↦ (b, ground arith, missing)
        | inr (raw, g) ↦ elim (Result-cases (V.unmarshal raw)) [
          | inr (e, u) ↦ absurd (ground arith)
          | inl (ct, u) ↦ elim (Result-cases (V.decrypt ct)) [
            | inr (e, d) ↦ absurd (ground arith)
            | inl (plain, d) ↦ (
              delete_logged T B V k b,
              ground arith,
              ground (arith, get-delete_logged k k b, (bytes_beq_iff k k).1 refl),
            )
          ]
        ]
      ]

  -- A transaction that returns no error has run its function.
  cut_ran :
      (k : Bytes) (s t : Option B.Bucket) (found : Option Bytes)
      → cut T B V k s ≡ (ok found, t)
      → cut_update T B V k s ≡ (ok found, t)
  unfolding cut
  cut_ran k s t found h = elim (Result-cases (cut_update T B V k s).0) [
    | inl (a, e) ↦
        let r = cut_update T B V k s in
        ground (arith, T.update_commit _ _ (cut_update T B V k) s r.1 a)
    | inr (x, e) ↦
        let r = cut_update T B V k s in
        ground (arith, T.update_rollback _ _ (cut_update T B V k) s r.1 x)
  ]

  -- A `Cut` that returns no error is the last one to find the key.
  pub cut_again :
      (k : Bytes) (s t : Option B.Bucket) (found : Option Bytes)
      → cut T B V k s ≡ (ok found, t)
      → (cut T B V k t).0 ≡ ok none
  cut_again k s t found h =
      let (b, e, g) = cut_update_leaves k s t found (cut_ran k s t found h) in
      rw e (ap (λ r. r.0) (cut_missing k b g))
