-- ===== src/Db/Migration.antt =====
-- db/migration/migration.go: the migrations of the database file, with the backup that a failed one
-- is undone with. A database is its bucket "system" and the rest; a migration may change both. The
-- random name of the backup is taken to be that of no other file. What the file operations return is
-- an argument; one that fails leaves the files as they were.
pub mod Files
pub mod Rounds
pub mod Sorted
pub mod Replay
pub mod Recovery
use panthalassa.Base.{
  ℕ, zero, suc, not, Option, none, some, List, [], ◌∷◌, Bytes, bytes_eq, nat_eq, contains, length,
  ltb, put_uint32, uint32, if◌then◌else◌, Result, ok, err, ◌>>=◌, ◌>>◌, guard,
}
use panthalassa.Bolt.{Transactions, Buckets, change}

pub data MigrationError : Type 0 where
  already_registered : ℕ → MigrationError
  no_system_bucket no_version uint32_panic close_panic : MigrationError
  migration_error file_error bolt_error : ℕ → MigrationError

-- "database_version"
abbrev pub database_version : Bytes
database_version =
    b'd' ∷ b'a' ∷ b't' ∷ b'a' ∷ b'b' ∷ b'a' ∷ b's' ∷ b'e' ∷ b'_' ∷ b'v' ∷ b'e' ∷ b'r' ∷ b's' ∷ b'i'
    ∷ b'o' ∷ b'n' ∷ []

module _ (T : Transactions MigrationError) (B : Buckets MigrationError) (Rest : Type 0) where
  pub record Database : Type 0 where
    pub system : Option B.Bucket
    pub rest : Rest

  pub record Migration : Type 0 where
    pub version : ℕ
    pub migrate : Database → Result ℕ (Unit {0}) × Database

  -- `doubleMigration`, with the versions seen before.
  unfoldable pub double_migration : List ℕ → List Migration → Option Migration
  double_migration seen [] = none
  double_migration seen (m ∷ ms) =
      let rest = double_migration (m.version ∷ seen) ms in
      if contains m.version seen then some m else rest

  -- `sort.SliceStable` by the versions.
  unfoldable pub insert_sorted : Migration → List Migration → List Migration
  insert_sorted m [] = m ∷ []
  insert_sorted m (n ∷ ns) =
      let rest = insert_sorted m ns in if ltb n.version m.version then n ∷ rest else m ∷ n ∷ ns

  unfoldable pub sort : List Migration → List Migration
  unfolding insert_sorted
  sort [] = []
  sort (m ∷ ms) = insert_sorted m (sort ms)

  unfoldable pub first_above : ℕ → List Migration → Option Migration
  first_above version [] = none
  first_above version (m ∷ ms) =
      let rest = first_above version ms in if ltb version m.version then some m else rest

  -- `findNextMigration`. It sorts the slice in place: another sort leaves a sorted slice as it is.
  unfoldable pub find_next_migration : ℕ → List Migration → Result MigrationError (Option Migration)
  unfolding double_migration sort first_above
  find_next_migration version ms = elim (double_migration [] ms) [
    | some m ↦ err (already_registered m.version)
    | none ↦ ok (first_above version (sort ms))
  ]

  -- `setupSystemBucket`
  unfoldable pub setup_in : B.Bucket → Result MigrationError B.Bucket
  setup_in b = elim (B.get database_version b) [
    | none ↦ B.put database_version (put_uint32 0) b
    | some raw ↦ ok b
  ]

  unfoldable pub system_or_empty : Option B.Bucket → B.Bucket
  system_or_empty none = B.empty
  system_or_empty (some b) = b

  unfoldable pub setup_body : Database → Result MigrationError Database
  unfolding setup_in system_or_empty
  setup_body db = do b ← setup_in (system_or_empty db.system); ok (record db { system = some b })

  unfoldable pub setup_system_bucket : Database → Result MigrationError (Unit {0}) × Database
  unfolding setup_body
  setup_system_bucket = T.update Database (Unit {0}) (change setup_body)

  -- The transaction that reads the version; `Uint32` panics at less than four bytes.
  unfoldable pub version_in : B.Bucket → Result MigrationError ℕ
  version_in b = elim (B.get database_version b) [
    | none ↦ err no_version
    | some raw ↦ do guard (not (ltb (length raw) 4)) uint32_panic; ok (uint32 raw)
  ]

  unfoldable pub read_version : Database → Result MigrationError ℕ
  unfolding version_in
  read_version db = elim db.system [ none ↦ err no_system_bucket | some b ↦ version_in b ]

  -- The transaction that writes it.
  unfoldable pub version_body : ℕ → Database → Result MigrationError Database
  version_body version db = elim db.system [
    | none ↦ err no_system_bucket
    | some b ↦ do
      c ← B.put database_version (put_uint32 version) b
      ok (record db { system = some c })
  ]

  unfoldable pub update_version : ℕ → Database → Result MigrationError (Unit {0}) × Database
  update_version version = T.update Database (Unit {0}) (change (version_body version))

  -- How the loop ends: all migrations done, an error that is returned, or a failed migration, which is
  -- undone.
  pub data Ended : Type 0 where
    finished : Ended
    failed : MigrationError → Ended
    to_undo : ℕ → Ended

  pub data Round : Type 0 where
    ended : Ended → Database → Round
    again : Database → Round

  unfoldable pub migrate_up : Migration → Database → Round
  unfolding update_version
  migrate_up m db =
      let migrated = m.migrate db in
      let updated = update_version m.version migrated.1 in
      elim migrated.0 [
        | err e ↦ ended (to_undo e) migrated.1
        | ok u ↦ elim updated.0 [ err e ↦ ended (failed e) updated.1 | ok v ↦ again updated.1 ]
      ]

  -- The body of the loop, over what `findNextMigration` returns for a version.
  unfoldable pub round : (ℕ → Result MigrationError (Option Migration)) → Database → Round
  unfolding read_version migrate_up
  round find db = elim (read_version db >>= find) [
    | err e ↦ ended (failed e) db
    | ok none ↦ ended finished db
    | ok (some m) ↦ migrate_up m db
  ]

  -- The loop, on fuel: `none` when it has run out.
  unfoldable pub loop :
      (ℕ → Result MigrationError (Option Migration)) → ℕ → Database → Option (Ended × Database)
  unfolding round
  loop find zero db = none
  loop find (suc fuel) db = elim (round find db) [
    | ended e d ↦ some (e, d)
    | again d ↦ loop find fuel d
  ]
