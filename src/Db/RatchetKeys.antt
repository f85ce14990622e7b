-- ===== src/Db/RatchetKeys.antt =====
-- db/dr_key_storage.go: the message keys of the double ratchet, under the ratchet key and the number
-- of the message. The interface of the ratchet's package has no errors: each operation logs its
-- error, and an update that fails leaves the storage as it was.
pub mod Stored
pub mod All
use panthalassa.Base.{
  ℕ, Bool, true, false, Option, none, some, Bytes, length, nat_beq, word, little_endian, Result, ok,
  err, ◌>>=◌, ◌>>◌, guard,
}
use panthalassa.Crypto.Aes.{AesError}
use panthalassa.Bolt.{Transactions, Buckets, Nested, change}
use panthalassa.Db.Vault.{Vault, DbError, not_32_bytes, seal, unseal}
use panthalassa.Db.PreKeys.{no_key}

-- `uintToBytes`
unfoldable pub uint_to_bytes : ℕ → Bytes
uint_to_bytes n = little_endian 8 n

module _ (T : Transactions DbError) (B : Buckets DbError) (N : Nested DbError B.Bucket B.empty)
    (V : Vault) where
  -- The decryption of a stored message key.
  unfoldable pub read_message_key : Bytes → Result DbError Bytes
  read_message_key raw = do
    plain ← unseal V raw
    guard (nat_beq (length plain) 32) not_32_bytes
    ok plain

  unfoldable pub get_in : ℕ → B.Bucket → Result DbError (Option Bytes)
  unfolding read_message_key
  get_in n b = elim (B.get (uint_to_bytes n) b) [
    | none ↦ ok none
    | some raw ↦ do key ← read_message_key raw; ok (some key)
  ]

  -- The function that `Get` runs on the database.
  unfoldable pub get_view : Bytes → ℕ → Option N.Outer → Result DbError (Option Bytes)
  unfolding get_in
  get_view k n none = ok none
  get_view k n (some o) = elim (N.bucket k o) [ none ↦ ok none | some b ↦ get_in n b ]

  -- `Get`, which logs an error.
  unfoldable pub get : Bytes → ℕ → Option N.Outer → Bytes × Bool
  get k n s = elim (get_view k n s) [
    | ok (some key) ↦ (key, true)
    | ok none ↦ (no_key, false)
    | err e ↦ (no_key, false)
  ]

  unfoldable pub created : Option N.Outer → N.Outer
  created none = N.none_inside
  created (some o) = o

  unfoldable pub bucket_or_empty : Option B.Bucket → B.Bucket
  bucket_or_empty none = B.empty
  bucket_or_empty (some b) = b

  unfoldable pub put_body :
      Result AesError Bytes → Bytes → ℕ → Bytes → Option N.Outer → Result DbError (Option N.Outer)
  unfolding created bucket_or_empty
  put_body random k n message_key s = do
    o ← N.create_bucket k (created s)
    raw ← seal V random message_key
    b ← B.put (uint_to_bytes n) raw (bucket_or_empty (N.bucket k o))
    ok (some (N.write_bucket k b o))

  unfoldable pub put : Result AesError Bytes → Bytes → ℕ → Bytes → Option N.Outer → Option N.Outer
  put random k n message_key s =
      (T.update (Option N.Outer) (Unit {0}) (change (put_body random k n message_key)) s).1

  unfoldable pub delete_in : Bytes → ℕ → N.Outer → Option B.Bucket → Result DbError (Option N.Outer)
  delete_in k n o none = ok (some o)
  delete_in k n o (some b) = do c ← B.delete (uint_to_bytes n) b; ok (some (N.write_bucket k c o))

  unfoldable pub delete_mk_body : Bytes → ℕ → Option N.Outer → Result DbError (Option N.Outer)
  unfolding delete_in
  delete_mk_body k n none = ok none
  delete_mk_body k n (some o) = delete_in k n o (N.bucket k o)

  unfoldable pub delete_mk : Bytes → ℕ → Option N.Outer → Option N.Outer
  delete_mk k n s = (T.update (Option N.Outer) (Unit {0}) (change (delete_mk_body k n)) s).1

  unfoldable pub delete_pk_body : Bytes → Option N.Outer → Result DbError (Option N.Outer)
  delete_pk_body k none = ok none
  delete_pk_body k (some o) = do p ← N.delete_bucket k o; ok (some p)

  unfoldable pub delete_pk : Bytes → Option N.Outer → Option N.Outer
  delete_pk k s = (T.update (Option N.Outer) (Unit {0}) (change (delete_pk_body k)) s).1

  -- `Count`, whose `int` becomes a `uint`.
  unfoldable pub count : Bytes → Option N.Outer → ℕ
  unfolding bucket_or_empty
  count k none = 0
  count k (some o) = elim (N.bucket k o) [ none ↦ 0 | some b ↦ word (length (B.entries b)) ]
