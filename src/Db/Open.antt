-- ===== src/Db/Open.antt =====
-- db/db.go: opening the database of an account, after its migrations, of which there are none yet.
use panthalassa.Base.{
  ℕ, ◌≡◌, refl, false, Option, none, some, [], ◌++◌, ◌∷◌, arith, Bytes, lookup, bytes_eq, bytes_beq,
  if◌then◌else◌, Result, ok, err, >>=-eq-ok,
}
use panthalassa.Bolt.{Transactions, Buckets}
use panthalassa.KeyManager.{KeyManager, KeyManagerError, identity_public_key}
use panthalassa.Db.Migration.{
  MigrationError, Database, double_migration, sort, setup_body, setup_in, system_or_empty,
  read_version,
}
use panthalassa.Db.Migration.Files.{FileResults, Files, migrate}
use panthalassa.Db.Migration.Replay.{replay}
use panthalassa.Db.Migration.Recovery.{healthy, migrate_done}

-- `KMToDBPath`; `join` is `filepath.Join` and then `Abs`.
unfoldable pub km_to_db_path :
    (Bytes → Bytes → Result KeyManagerError Bytes)
    → Bytes
    → KeyManager
    → Result KeyManagerError Bytes
km_to_db_path join dir km = elim (identity_public_key km) [
  | err e ↦ err e
  | ok key ↦ join dir (key ++ (b'.' ∷ b'd' ∷ b'b' ∷ []))
]

module _ (T : Transactions MigrationError) (B : Buckets MigrationError) (Rest : Type 0) where
  -- `Open`; `opened` is what opening the file gives.
  unfoldable pub open_file :
      FileResults
      → Result MigrationError (Unit {0})
      → Bytes
      → Files T B Rest
      → Option (Result MigrationError (Unit {0}) × Files T B Rest)
  open_file R opened file files = elim (migrate T B Rest R file [] files) [
    | none ↦ none
    | some (err e, after) ↦ some (err e, after)
    | some (ok u, after) ↦ some (opened, after)
  ]

  setup_body-rest :
      (db set : Database T B Rest) → setup_body T B Rest db ≡ ok set → set.rest ≡ db.rest
  unfolding setup_body
  setup_body-rest db set h =
      let (b, e, r) = >>=-eq-ok (setup_in T B Rest (system_or_empty T B Rest db.system)) _ h in
      ground arith

  -- Opening a database changes its bucket "system" at most, and no other file.
  pub open_file_lem :
      (opened : Result MigrationError (Unit {0})) (file backup_file : Bytes)
      (db set : Database T B Rest) (v : ℕ) (files : Files T B Rest)
      → lookup file files ≡ some db
      → bytes_beq backup_file file ≡ false
      → setup_body T B Rest db ≡ ok set
      → read_version T B Rest set ≡ ok v
      → (after : Files T B Rest) × (open_file (healthy backup_file) opened file files
          ≡ some (opened, after))
        × (set.rest ≡ db.rest)
        × ((name : Bytes)
            → lookup name after ≡ (
                if bytes_beq backup_file name
                then none
                else if bytes_beq file name
                then some set
                else lookup name files))
  unfolding open_file double_migration sort replay
  open_file_lem opened file backup_file db set v files there other setup readable =
      let (w, after, runs, e, all, holds) =
        migrate_done T B Rest file backup_file [] db set set files refl tt there other setup
          (ground arith) in
      (after, ground arith, setup_body-rest db set setup, holds)
