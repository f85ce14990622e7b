-- ===== src/Dapp/Database/Isolated.antt =====
-- What `Put` and `Delete` of one DApp change.
use panthalassa.Base.{
  ◌≡◌, Option, none, some, arith, Bytes, length, nat_beq, bytes_beq, bytes_beq_iff, if◌then◌else◌,
  ok, Bool-cases, inl, inr,
}
use panthalassa.Bolt.{Transactions, Buckets, Nested}
use panthalassa.Bolt.Within.{change_ok, raw_at-put_at, raw_at-delete_at}
use panthalassa.Db.Vault.{DbError}
use panthalassa.Dapp.Database.{put_body, put, delete_body, delete, get}

module _ (T : Transactions DbError) (B : Buckets DbError)
    (N : Nested DbError B.Bucket B.empty) where
  -- After `Put` returned no error, `Get` of that DApp finds the value under its key, and what it
  -- found before under other keys; every other DApp finds what it found before.
  pub get-put_value :
      (dapp key value : Bytes) (s t : Option N.Outer)
      → put T B N dapp key value s ≡ (ok tt, t)
      → (other j : Bytes)
      → get T B N other j t ≡ (
          if bytes_beq dapp other
          then (if bytes_beq key j then ok (some value) else get T B N other j s)
          else get T B N other j s)
  unfolding put put_body get
  get-put_value dapp key value s t h other j = elim (Bool-cases (nat_beq (length dapp) 32)) [
    | inr e ↦
        let stored = change_ok T (put_body T B N dapp key value) s t h in absurd (ground arith)
    | inl e ↦
        let stored = change_ok T (put_body T B N dapp key value) s t h in
        let (raw, is_value, holds) = raw_at-put_at B N dapp key (ok value) s t (ground arith) in
        ground (arith, holds other j, bytes_beq_iff dapp other)
  ]

  -- After `Delete` returned no error, `Get` of that DApp finds nothing under the key, and what it
  -- found before under other keys; every other DApp finds what it found before.
  pub get-delete :
      (dapp key : Bytes) (s t : Option N.Outer)
      → delete T B N dapp key s ≡ (ok tt, t)
      → (other j : Bytes)
      → get T B N other j t ≡ (
          if bytes_beq dapp other
          then (if bytes_beq key j then ok none else get T B N other j s)
          else get T B N other j s)
  unfolding delete delete_body get
  get-delete dapp key s t h other j = elim (Bool-cases (nat_beq (length dapp) 32)) [
    | inr e ↦ let stored = change_ok T (delete_body T B N dapp key) s t h in absurd (ground arith)
    | inl e ↦
        let stored = change_ok T (delete_body T B N dapp key) s t h in
        let holds = raw_at-delete_at B N dapp key s t (ground arith) other j in
        ground (arith, bytes_beq_iff dapp other)
  ]
