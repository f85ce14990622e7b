-- ===== src/Db/RatchetKeys/All.antt =====
-- `All` of db/dr_key_storage.go: the maps of the message keys that can be read. A ratchet key whose
-- name is not 32 bytes long, or that is not a bucket, ends the walk with an error that is logged.
use panthalassa.Base.{
  ℕ, ◌^◌, ◌<◌, ◌≡◌, refl, Bool, true, false, Option, none, some, List, [], ◌∷◌, arith, Bytes,
  length, take, nat_beq, nat_eq, bytes_eq, bytes_beq, Assoc, lookup, value_of_little,
  value_of_little-little_endian, ◌↔◌, power, if◌then◌else◌, inl, inr, Bool-cases, Option-cases, ap,
  ◌∙◌,
}
use panthalassa.Bolt.{Transactions, Buckets, Nested}
use panthalassa.Db.Vault.{Vault, DbError}
use panthalassa.Db.RatchetKeys.{uint_to_bytes, get_in, get_view, get}

-- `bytesToUint` reads the first eight bytes. It panics where there are fewer, which no name that
-- `Put` writes has; the model reads what there is.
unfoldable bytes_to_uint : Bytes → ℕ
bytes_to_uint bs = value_of_little (take 8 bs)

unfoldable add_read : ℕ → Bytes × Bool → Assoc ℕ Bytes → Assoc ℕ Bytes
add_read n (key, exist) keys = if exist then (n, key) ∷ keys else keys

number_of-uint_to_bytes : (n : ℕ) → n < 2 ^ 64 → bytes_to_uint (uint_to_bytes n) ≡ n
unfolding bytes_to_uint uint_to_bytes power panthalassa.Base.little_endian
number_of-uint_to_bytes n fits = value_of_little-little_endian 8 n fits

lookup-add_read :
    (n m : ℕ) (r : Bytes × Bool) (keys : Assoc ℕ Bytes)
    → lookup n (add_read m r keys)
      ≡ (if r.1 then if nat_beq m n then some r.0 else lookup n keys else lookup n keys)
unfolding add_read lookup
lookup-add_read n m (key, true) keys = refl
lookup-add_read n m (key, false) keys = refl

module _ (T : Transactions DbError) (B : Buckets DbError) (N : Nested DbError B.Bucket B.empty)
    (V : Vault) where
  -- The message keys of one ratchet key.
  unfoldable message_keys : Bytes → Option N.Outer → List (Bytes × Bytes) → Assoc ℕ Bytes
  unfolding bytes_to_uint add_read
  message_keys k s [] = []
  message_keys k s ((name, raw) ∷ entries) =
      add_read (bytes_to_uint name) (get T B N V k (bytes_to_uint name) s)
        (message_keys k s entries)

  unfoldable all_in : N.Outer → List Bytes → Assoc Bytes (Assoc ℕ Bytes)
  unfolding message_keys
  all_in o [] = []
  all_in o (k ∷ names) =
      let rest = all_in o names in
      elim (N.bucket k o) [
        | none ↦ []
        | some b ↦
            if nat_beq (length k) 32 then (k, message_keys k (some o) (B.entries b)) ∷ rest else []
      ]

  -- `All`
  unfoldable pub all : Option N.Outer → Assoc Bytes (Assoc ℕ Bytes)
  unfolding all_in
  all none = []
  all (some o) = all_in o (N.bucket_names o)

  get-message_keys :
      (k : Bytes) (s : Option N.Outer) (entries : List (Bytes × Bytes)) (n : ℕ) (key : Bytes)
      → lookup n (message_keys k s entries) ≡ some key
      → get T B N V k n s ≡ (key, true)
  unfolding message_keys add_read lookup
  get-message_keys k s [] n key h = absurd (ground arith)
  get-message_keys k s ((name, raw) ∷ entries) n key h = ground (
    arith,
    lookup-add_read n (bytes_to_uint name) (get T B N V k (bytes_to_uint name) s)
        (message_keys k s entries),
    nat_eq.equal_iff (bytes_to_uint name) n,
    get-message_keys k s entries n key,
  )

  message_keys-get :
      (k : Bytes) (s : Option N.Outer) (entries : List (Bytes × Bytes)) (n : ℕ) (key raw : Bytes)
      → n < 2 ^ 64
      → lookup (uint_to_bytes n) entries ≡ some raw
      → get T B N V k n s ≡ (key, true)
      → lookup n (message_keys k s entries) ≡ some key
  unfolding message_keys add_read lookup
  message_keys-get k s [] n key raw fits h g = absurd (ground arith)
  message_keys-get k s ((name, r) ∷ entries) n key raw fits h g = ground (
    arith,
    lookup-add_read n (bytes_to_uint name) (get T B N V k (bytes_to_uint name) s)
        (message_keys k s entries),
    nat_eq.equal_iff (bytes_to_uint name) n,
    bytes_eq.equal_iff name (uint_to_bytes n),
    number_of-uint_to_bytes n fits,
    message_keys-get k s entries n key raw fits,
  )

  all_in-found :
      (o : N.Outer) (names : List Bytes) (k : Bytes) (keys : Assoc ℕ Bytes)
      → lookup k (all_in o names) ≡ some keys
      → (b : B.Bucket) × (N.bucket k o ≡ some b) × (keys ≡ message_keys k (some o) (B.entries b))
  unfolding all_in lookup
  all_in-found o [] k keys h = absurd (ground arith)
  all_in-found o (name ∷ names) k keys h = elim (Option-cases (N.bucket name o)) [
    | inl e ↦ absurd (ground arith)
    | inr (b, e) ↦ elim (Bool-cases (bytes_beq name k)) [
      | inl same ↦
          let named = bytes_eq.equal_iff name k in (b, ground (arith, named), ground (arith, named))
      | inr other ↦ all_in-found o names k keys (ground arith)
    ]
  ]

  stored_get :
      (o : N.Outer) (b : B.Bucket) (k : Bytes) (n : ℕ) (key : Bytes)
      → N.bucket k o ≡ some b
      → get T B N V k n (some o) ≡ (key, true)
      → (raw : Bytes) × (lookup (uint_to_bytes n) (B.entries b) ≡ some raw)
  unfolding get get_view get_in
  stored_get o b k n key e g = elim (Option-cases (B.get (uint_to_bytes n) b)) [
    | inl a ↦ absurd (ground arith)
    | inr (raw, a) ↦ (raw, B.lookup-entries (uint_to_bytes n) b ∙ a)
  ]

  -- Under a ratchet key that `All` returns, the map has a message key under a number that fits a
  -- `uint` if and only if `Get` finds that key.
  pub lookup-all :
      (s : Option N.Outer) (k : Bytes) (keys : Assoc ℕ Bytes) (n : ℕ) (key : Bytes)
      → lookup k (all s) ≡ some keys
      → n < 2 ^ 64
      → (lookup n keys ≡ some key) ↔ (get T B N V k n s ≡ (key, true))
  unfolding all lookup
  lookup-all none k keys n key h fits = absurd (ground arith)
  lookup-all (some o) k keys n key h fits =
      let (b, e, are) = all_in-found o (N.bucket_names o) k keys h in
      (
        (λ l. get-message_keys k (some o) (B.entries b) n key (ground arith)),
        λ g.
            let (raw, found) = stored_get o b k n key e g in
            ap (lookup n) are ∙ message_keys-get k (some o) (B.entries b) n key raw fits found g,
      )
