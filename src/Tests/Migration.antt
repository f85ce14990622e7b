-- ===== src/Tests/Migration.antt =====
-- Tests of the migrations of the database file.
use panthalassa.Base.{
  ℕ, ◌≡◌, ◌+◌, ◌≤◌, refl, true, false, Option, none, some, List, [], ◌∷◌, arith, All, Bytes, lookup,
  bytes_eq, bytes_beq, if◌then◌else◌, Result, ok, err, insert,
}
use panthalassa.Db.Migration.{
  MigrationError, migration_error, Database, Migration, read_version, sort, double_migration,
  finished, to_undo, setup_body,
}
use panthalassa.Db.Migration.Files.{Files, migrate}
use panthalassa.Db.Migration.{loop, find_next_migration, Ended}
use panthalassa.Db.Migration.Replay.{replay, loop-sort}
use panthalassa.Db.Migration.Recovery.{healthy, migrate_done, migrate_undone}
use panthalassa.Tests.Models.{transactions, buckets_of}

abbrev Db : Type 0
Db = Database (transactions MigrationError) (buckets_of MigrationError) ℕ

abbrev Step : Type 0
Step = Migration (transactions MigrationError) (buckets_of MigrationError) ℕ

abbrev add_ten : Db → Result ℕ (Unit {0}) × Db
add_ten db = (ok tt, record db { rest = db.rest + 10 })

abbrev break_it : Db → Result ℕ (Unit {0}) × Db
break_it db = (err 9, record db { rest = 0 })

abbrev first : Step
first = record { version = 1; migrate = add_ten }

abbrev third : Step
third = record { version = 3; migrate = add_ten }

abbrev broken : Step
broken = record { version = 2; migrate = break_it }

abbrev version_key : Bytes
version_key =
    b'd' ∷ b'a' ∷ b't' ∷ b'a' ∷ b'b' ∷ b'a' ∷ b's' ∷ b'e' ∷ b'_' ∷ b'v' ∷ b'e' ∷ b'r' ∷ b's' ∷ b'i'
    ∷ b'o' ∷ b'n' ∷ []

abbrev at_version : ℕ → ℕ → Db
at_version version rest = record {
  system = some ((version_key, 0 ∷ 0 ∷ 0 ∷ version ∷ []) ∷ []);
  rest = rest;
}

abbrev fresh : Db
fresh = record { system = none; rest = 5 }

abbrev disk : Files (transactions MigrationError) (buckets_of MigrationError) ℕ
disk = (1 ∷ [], fresh) ∷ []

migrate_done_example :
    (v : ℕ) × (after : Files (transactions MigrationError) (buckets_of MigrationError) ℕ) × (migrate
        (transactions MigrationError)
        (buckets_of MigrationError)
        ℕ
        (healthy (2 ∷ []))
        (1 ∷ [])
        (third ∷ first ∷ [])
        disk
      ≡ some (ok tt, after))
    × (read_version (transactions MigrationError) (buckets_of MigrationError) ℕ (at_version 3 25)
        ≡ ok v)
    × All (λ (m : Step). m.version ≤ v) (third ∷ first ∷ [])
    × ((name : Bytes)
        → lookup name after ≡ (
            if bytes_beq (2 ∷ []) name
            then none
            else if bytes_beq (1 ∷ []) name
            then some (at_version 3 25)
            else lookup name disk))
unfolding double_migration panthalassa.Base.contains lookup bytes_beq setup_body
    panthalassa.Tests.Models.put_pair insert panthalassa.Base.put_uint32 replay sort read_version
    panthalassa.Base.uint32 panthalassa.Db.Migration.migrate_up panthalassa.Tests.Models.run_update
    panthalassa.Bolt.change panthalassa.Db.Migration.version_body
migrate_done_example =
    migrate_done (transactions MigrationError) (buckets_of MigrationError) ℕ (1 ∷ []) (2 ∷ [])
      (third ∷ first ∷ []) fresh (at_version 0 5) (at_version 3 25) disk refl (omega arith) refl
      refl refl refl

migrate_undone_example :
    (after : Files (transactions MigrationError) (buckets_of MigrationError) ℕ) × (migrate
        (transactions MigrationError)
        (buckets_of MigrationError)
        ℕ
        (healthy (2 ∷ []))
        (1 ∷ [])
        (broken ∷ first ∷ [])
        disk
      ≡ some (err (migration_error 9), after))
    × ((name : Bytes)
        → lookup name after ≡ (
            if bytes_beq (1 ∷ []) name
            then some (at_version 0 5)
            else if bytes_beq (2 ∷ []) name
            then some (at_version 0 5)
            else lookup name disk))
unfolding double_migration panthalassa.Base.contains lookup bytes_beq setup_body
    panthalassa.Tests.Models.put_pair insert panthalassa.Base.put_uint32 replay sort read_version
    panthalassa.Base.uint32 panthalassa.Db.Migration.migrate_up panthalassa.Tests.Models.run_update
    panthalassa.Bolt.change panthalassa.Db.Migration.version_body
migrate_undone_example =
    migrate_undone (transactions MigrationError) (buckets_of MigrationError) ℕ (1 ∷ []) (2 ∷ [])
      (broken ∷ first ∷ []) fresh (at_version 0 5) (at_version 1 0) disk 9 refl (omega arith) refl
      refl refl

loop-sort_example :
    loop
      (transactions MigrationError)
      (buckets_of MigrationError)
      ℕ
      (λ v.
        find_next_migration
          (transactions MigrationError)
          (buckets_of MigrationError)
          ℕ
          v
          (third ∷ first ∷ []))
      3
      fresh
    ≡ some (
        replay
          (transactions MigrationError)
          (buckets_of MigrationError)
          ℕ
          (sort (transactions MigrationError) (buckets_of MigrationError) ℕ (third ∷ first ∷ []))
          fresh)
unfolding double_migration panthalassa.Base.contains
loop-sort_example =
    loop-sort (transactions MigrationError) (buckets_of MigrationError) ℕ (third ∷ first ∷ []) fresh
      refl (omega arith)
