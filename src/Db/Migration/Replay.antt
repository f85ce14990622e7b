-- ===== src/Db/Migration/Replay.antt =====
-- The loop of `Migrate` compared with one pass over the sorted migrations.
use panthalassa.Base.{
  ℕ, zero, suc, ◌+◌, ◌≡◌, ◌≤◌, ◌<◌, ◌^◌, refl, true, false, Option, none, some, List, [], ◌∷◌,
  arith, All, length, ltb, Result, ok, err, Result-cases, Bool-cases, inl, inr, ◌∙◌,
}
use panthalassa.Bolt.{Transactions, Buckets}
use panthalassa.Db.Migration.{
  MigrationError, already_registered, Database, Migration, double_migration, sort, first_above,
  find_next_migration, read_version, Ended, finished, failed, Round, ended, again, migrate_up, loop,
}
use panthalassa.Db.Migration.Rounds.{
  Fits, find_in, read-migrate_up, migrate_up-ended, Round-cases, round-found, round-none,
  round-unreadable, first_above-here, loop-skip,
}
use panthalassa.Db.Migration.Sorted.{All-sort, length-sort}

module _ (T : Transactions MigrationError) (B : Buckets MigrationError) (Rest : Type 0) where
  -- What a round that goes on is followed by.
  unfoldable pub continue_with :
      Round T B Rest
      → (Database T B Rest → Ended T B Rest × Database T B Rest)
      → Ended T B Rest × Database T B Rest
  continue_with (ended e d) next = (e, d)
  continue_with (again d) next = next d

  -- One pass over the migrations: each that is above the version of the database is applied to it.
  unfoldable pub replay :
      List (Migration T B Rest) → Database T B Rest → Ended T B Rest × Database T B Rest
  unfolding continue_with
  replay [] db = elim (read_version T B Rest db) [ err e ↦ (failed e, db) | ok v ↦ (finished, db) ]
  replay (m ∷ ms) db = elim (read_version T B Rest db) [
    | err e ↦ (failed e, db)
    | ok v ↦ elim (ltb v m.version) [
      | true ↦ continue_with (migrate_up T B Rest m db) (λ d. replay ms d)
      | false ↦ replay ms db
    ]
  ]

  -- With more fuel than migrations, the loop over a list that is searched in its order is the pass.
  loop-replay :
      (ms : List (Migration T B Rest)) (fuel : ℕ) (db : Database T B Rest)
      → Fits T B Rest ms
      → length ms < fuel
      → loop T B Rest (find_in T B Rest ms) fuel db ≡ some (replay ms db)
  unfolding loop replay
  loop-replay ms zero db fits h = absurd (omega arith)
  loop-replay [] (suc fuel) db fits h = elim (Result-cases (read_version T B Rest db)) [
    | inr (x, e) ↦ let stops = round-unreadable T B Rest [] db x e in ground arith
    | inl (v, e) ↦
        let stops = round-none T B Rest [] v db e (unfold first_above in refl) in ground arith
  ]
  loop-replay (m ∷ ms) (suc fuel) db fits h = elim (Result-cases (read_version T B Rest db)) [
    | inr (x, e) ↦ let stops = round-unreadable T B Rest (m ∷ ms) db x e in ground arith
    | inl (v, e) ↦ elim (Bool-cases (ltb v m.version)) [
      | inr low ↦
          let ih = loop-replay ms (suc fuel) db fits.1 (omega arith) in
          loop-skip T B Rest m ms (suc fuel) v db fits.1 low e ∙ ih ∙ ground arith
      | inl high ↦
          let found =
            round-found T B Rest (m ∷ ms) v db m e (first_above-here T B Rest m ms v high) in
          elim (Round-cases T B Rest (migrate_up T B Rest m db)) [
            | inl (x, d, g) ↦ unfold continue_with in ground arith
            | inr (d, g) ↦
                let skips =
                  loop-skip T B Rest m ms fuel m.version d fits.1 (ground arith)
                    (read-migrate_up T B Rest m db d fits.0 g) in
                let ih = loop-replay ms fuel d fits.1 (omega arith) in
                unfold continue_with in ground arith
          ]
    ]
  ]

  find_next_migration_lem :
      (ms : List (Migration T B Rest))
      → double_migration T B Rest [] ms ≡ none
      → ◌≡◌ {A = ℕ → Result MigrationError (Option (Migration T B Rest))}
          (λ v. find_next_migration T B Rest v ms)
          (find_in T B Rest (sort T B Rest ms))
  unfolding find_next_migration
  find_next_migration_lem ms single = λ i v. elim (single i) [
    | some m ↦ err (already_registered m.version)
    | none ↦ ok (first_above T B Rest v (sort T B Rest ms))
  ]

  -- With one round more than there are migrations, whose versions fit a `uint32` and are all
  -- different, the loop of `Migrate` ends, and does what one pass over the migrations in the
  -- order of their versions does, which applies each migration that is above the version of the
  -- database.
  pub loop-sort :
      (ms : List (Migration T B Rest)) (db : Database T B Rest)
      → double_migration T B Rest [] ms ≡ none
      → Fits T B Rest ms
      → loop T B Rest (λ v. find_next_migration T B Rest v ms) (length ms + 1) db
        ≡ some (replay (sort T B Rest ms) db)
  loop-sort ms db single fits = rw (find_next_migration_lem ms single) (
      loop-replay (sort T B Rest ms) (length ms + 1) db
        ((All-sort T B Rest (λ (m : Migration T B Rest). m.version < 2 ^ 32) ms).0 fits)
        (omega (arith, length-sort T B Rest ms)))

  -- A pass that finishes leaves a version that no migration is above.
  replay-finished :
      (ms : List (Migration T B Rest)) (db d : Database T B Rest) (v : ℕ)
      → Fits T B Rest ms
      → read_version T B Rest db ≡ ok v
      → replay ms db ≡ (finished, d)
      → (w : ℕ) × (read_version T B Rest d ≡ ok w)
        × (v ≤ w)
        × All (λ (m : Migration T B Rest). m.version ≤ w) ms
  unfolding replay continue_with
  replay-finished [] db d v fits e h = (v, ground arith, omega arith, tt)
  replay-finished (m ∷ ms) db d v fits e h = elim (Bool-cases (ltb v m.version)) [
    | inr low ↦
        let (w, f, le, all) = replay-finished ms db d v fits.1 e (ground arith) in
        (w, f, le, (ground arith, all))
    | inl high ↦ elim (Round-cases T B Rest (migrate_up T B Rest m db)) [
      | inl (x, c, g) ↦ let other = migrate_up-ended T B Rest m db c x g in absurd (ground arith)
      | inr (c, g) ↦
          let (w, f, le, all) =
            replay-finished ms c d m.version fits.1 (read-migrate_up T B Rest m db c fits.0 g)
              (ground arith) in
          (w, f, ground arith, (le, all))
    ]
  ]

  replay-readable :
      (ms : List (Migration T B Rest)) (db d : Database T B Rest)
      → replay ms db ≡ (finished, d)
      → (v : ℕ) × (read_version T B Rest db ≡ ok v)
  unfolding replay
  replay-readable [] db d h = elim (Result-cases (read_version T B Rest db)) [
    | inl (v, e) ↦ (v, e)
    | inr (x, e) ↦ absurd (ground arith)
  ]
  replay-readable (m ∷ ms) db d h = elim (Result-cases (read_version T B Rest db)) [
    | inl (v, e) ↦ (v, e)
    | inr (x, e) ↦ absurd (ground arith)
  ]

  pub finished-IsUpToDate :
      (ms : List (Migration T B Rest)) (db d : Database T B Rest)
      → Fits T B Rest ms
      → replay (sort T B Rest ms) db ≡ (finished, d)
      → (v : ℕ) × (read_version T B Rest d ≡ ok v)
        × All (λ (m : Migration T B Rest). m.version ≤ v) ms
  finished-IsUpToDate ms db d fits h =
      let sorted = sort T B Rest ms in
      let (v, e) = replay-readable sorted db d h in
      let fit = (All-sort T B Rest (λ (m : Migration T B Rest). m.version < 2 ^ 32) ms).0 fits in
      let (w, f, le, all) = replay-finished sorted db d v fit e h in
      (w, f, (All-sort T B Rest (λ (m : Migration T B Rest). m.version ≤ w) ms).1 all)
