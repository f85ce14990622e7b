-- ===== src/Db/Migration/Recovery.antt =====
-- What `Migrate` leaves in the files where every file operation succeeds.
use panthalassa.Base.{
  ℕ, ◌≡◌, ◌≤◌, false, none, some, List, [], arith, All, Bytes, lookup, insert, remove,
  lookup-insert, lookup-remove, bytes_beq, bytes_eq, if◌then◌else◌, ok, err, ◌∙◌,
}
use panthalassa.Bolt.{Transactions, Buckets, change, update-change}
use panthalassa.Db.Migration.{
  MigrationError, migration_error, Database, Migration, double_migration, sort, setup_body,
  setup_system_bucket, read_version, finished, to_undo,
}
use panthalassa.Db.Migration.Files.{
  FileResults, Files, close_files, run_migrations, backup_and_run, migrate_file, migrate,
}
use panthalassa.Db.Migration.Rounds.{Fits}
use panthalassa.Db.Migration.Replay.{replay, loop-sort, finished-IsUpToDate}

-- Every file operation succeeds.
abbrev pub healthy : Bytes → FileResults
healthy backup_file = record {
  open_production = ok tt;
  backup_name = ok backup_file;
  copy = ok tt;
  open_backup = ok tt;
  close_production = ok tt;
  copy_back = ok tt;
  remove_backup = ok tt;
}

module _ (T : Transactions MigrationError) (B : Buckets MigrationError) (Rest : Type 0) where
  -- The files before the loop.
  abbrev pub backed_up : Bytes → Bytes → Database T B Rest → Files T B Rest → Files T B Rest
  backed_up file backup_file db files = insert backup_file db (insert file db files)

  -- `Migrate` is one pass over the sorted migrations between the backup and its removal.
  pub migrate_lem :
      (file backup_file : Bytes) (ms : List (Migration T B Rest)) (db set : Database T B Rest)
      (files : Files T B Rest)
      → double_migration T B Rest [] ms ≡ none
      → Fits T B Rest ms
      → lookup file files ≡ some db
      → setup_body T B Rest db ≡ ok set
      → migrate T B Rest (healthy backup_file) file ms files
        ≡ some (
            close_files T B Rest
              (healthy backup_file)
              file
              backup_file
              set
              (replay T B Rest (sort T B Rest ms) set)
              (backed_up file backup_file set files))
  unfolding migrate migrate_file setup_system_bucket backup_and_run run_migrations change
  migrate_lem file backup_file ms db set files single fits there setup =
      let set_up = update-change T (setup_body T B Rest) db in
      let looped = loop-sort T B Rest ms set single fits in ground arith

  -- Where every file operation succeeds, no version is there twice and the pass over the sorted
  -- migrations finishes, `Migrate` returns no error, the production file holds what that pass
  -- gives, its version is not below that of any migration, the backup is removed, and no other
  -- file changes.
  pub migrate_done :
      (file backup_file : Bytes) (ms : List (Migration T B Rest)) (db set d : Database T B Rest)
      (files : Files T B Rest)
      → double_migration T B Rest [] ms ≡ none
      → Fits T B Rest ms
      → lookup file files ≡ some db
      → bytes_beq backup_file file ≡ false
      → setup_body T B Rest db ≡ ok set
      → replay T B Rest (sort T B Rest ms) set ≡ (finished, d)
      → (v : ℕ) × (after : Files T B Rest) × (migrate T B Rest (healthy backup_file) file ms files
          ≡ some (ok tt, after))
        × (read_version T B Rest d ≡ ok v)
        × All (λ (m : Migration T B Rest). m.version ≤ v) ms
        × ((name : Bytes)
            → lookup name after ≡ (
                if bytes_beq backup_file name
                then none
                else if bytes_beq file name
                then some d
                else lookup name files))
  unfolding close_files
  migrate_done file backup_file ms db set d files single fits there other setup h =
      let runs = migrate_lem file backup_file ms db set files single fits there setup in
      let (v, e, all) = finished-IsUpToDate T B Rest ms set d fits h in
      let before = backed_up file backup_file set files in
      (
        v,
        remove backup_file (insert file d before),
        runs ∙ ground arith,
        e,
        all,
        λ name. ground (
          arith,
          lookup-remove backup_file name (insert file d before),
          lookup-insert file name d before,
          lookup-insert backup_file name set (insert file set files),
          lookup-insert file name set files,
        ),
      )

  -- Where every file operation succeeds and no version is there twice, a migration that fails
  -- makes `Migrate` return its error and leave in the production file the database as it was
  -- before the first migration, but for the version that was set up, whatever the migrations
  -- before it and the failed one changed. The backup stays, and no other file changes.
  pub migrate_undone :
      (file backup_file : Bytes) (ms : List (Migration T B Rest)) (db set d : Database T B Rest)
      (files : Files T B Rest) (e : ℕ)
      → double_migration T B Rest [] ms ≡ none
      → Fits T B Rest ms
      → lookup file files ≡ some db
      → setup_body T B Rest db ≡ ok set
      → replay T B Rest (sort T B Rest ms) set ≡ (to_undo e, d)
      → (after : Files T B Rest) × (migrate T B Rest (healthy backup_file) file ms files
          ≡ some (err (migration_error e), after))
        × ((name : Bytes)
            → lookup name after ≡ (
                if bytes_beq file name
                then some set
                else if bytes_beq backup_file name
                then some set
                else lookup name files))
  unfolding close_files
  migrate_undone file backup_file ms db set d files e single fits there setup h =
      let runs = migrate_lem file backup_file ms db set files single fits there setup in
      let before = backed_up file backup_file set files in
      (
        insert file set before,
        runs ∙ ground arith,
        λ name. ground (
          arith,
          lookup-insert file name set before,
          lookup-insert backup_file name set (insert file set files),
          lookup-insert file name set files,
        ),
      )
