-- ===== src/Db/Migration/Files.antt =====
-- The files of `Migrate`: the production database, its backup, and what a failed migration leaves.
use panthalassa.Base.{
  ◌+◌, Option, none, some, List, [], Bytes, Assoc, lookup, insert, remove, bytes_eq, length, Result,
  ok, err, ◌>>◌,
}
use panthalassa.Bolt.{Transactions, Buckets}
use panthalassa.Db.Migration.{
  MigrationError, close_panic, already_registered, migration_error, Database, Migration,
  double_migration, find_next_migration, setup_system_bucket, Ended, finished, failed, to_undo,
  loop,
}

-- What the operations on files return.
pub record FileResults : Type 0 where
  pub open_production : Result MigrationError (Unit {0})
  pub backup_name : Result MigrationError Bytes
  pub copy : Result MigrationError (Unit {0})
  pub open_backup : Result MigrationError (Unit {0})
  pub close_production : Result MigrationError (Unit {0})
  pub copy_back : Result MigrationError (Unit {0})
  pub remove_backup : Result MigrationError (Unit {0})

module _ (T : Transactions MigrationError) (B : Buckets MigrationError) (Rest : Type 0) where
  abbrev pub Files : Type 0
  Files = Assoc Bytes (Database T B Rest)

  -- What follows the loop: the backup is removed, or copied to the production file.
  unfoldable pub close_files :
      FileResults
      → Bytes
      → Bytes
      → Database T B Rest
      → Ended T B Rest × Database T B Rest
      → Files
      → Result MigrationError (Unit {0}) × Files
  close_files R file backup_file backup (finished, db) files = (
    R.remove_backup,
    elim R.remove_backup [
      | ok u ↦ remove backup_file (insert file db files)
      | err e ↦ insert file db files
    ],
  )
  close_files R file backup_file backup (failed e, db) files = (err e, insert file db files)
  close_files R file backup_file backup (to_undo e, db) files =
      elim (R.close_production >> R.copy_back) [
        | err x ↦ (err x, insert file db files)
        | ok u ↦ (err (migration_error e), insert file backup files)
      ]

  -- The loop on the opened files, with a round for each migration and one more.
  unfoldable pub run_migrations :
      FileResults
      → Bytes
      → Bytes
      → List (Migration T B Rest)
      → Database T B Rest
      → Files
      → Option (Result MigrationError (Unit {0}) × Files)
  unfolding close_files
  run_migrations R file backup_file ms db files =
      elim (loop T B Rest (λ v. find_next_migration T B Rest v ms) (length ms + 1) db) [
        | none ↦ none
        | some end ↦ some (close_files R file backup_file db end files)
      ]

  -- The backup of the production database, and the migrations. Where a file cannot be opened, the
  -- deferred `Close` of the nil database panics.
  unfoldable pub backup_and_run :
      FileResults
      → Bytes
      → List (Migration T B Rest)
      → Database T B Rest
      → Files
      → Option (Result MigrationError (Unit {0}) × Files)
  unfolding run_migrations
  backup_and_run R file ms db files = elim R.backup_name [
    | err e ↦ some (err e, files)
    | ok backup_file ↦ elim R.copy [
      | err e ↦ some (err e, files)
      | ok u ↦ elim R.open_backup [
        | err e ↦ some (err close_panic, insert backup_file db files)
        | ok u ↦ run_migrations R file backup_file ms db (insert backup_file db files)
      ]
    ]
  ]

  unfoldable pub migrate_file :
      FileResults
      → Bytes
      → List (Migration T B Rest)
      → Database T B Rest
      → Files
      → Option (Result MigrationError (Unit {0}) × Files)
  unfolding backup_and_run
  migrate_file R file ms db files =
      let set = setup_system_bucket T B Rest db in
      elim R.open_production [
        | err e ↦ some (err close_panic, files)
        | ok u ↦ elim set.0 [
          | err e ↦ some (err e, files)
          | ok v ↦ backup_and_run R file ms set.1 (insert file set.1 files)
        ]
      ]

  -- `Migrate`
  unfoldable pub migrate :
      FileResults
      → Bytes
      → List (Migration T B Rest)
      → Files
      → Option (Result MigrationError (Unit {0}) × Files)
  unfolding migrate_file
  migrate R file ms files = elim (double_migration T B Rest [] ms) [
    | some m ↦ some (err (already_registered m.version), files)
    | none ↦ elim (lookup file files) [
      | none ↦ some (ok tt, files)
      | some db ↦ migrate_file R file ms db files
    ]
  ]
