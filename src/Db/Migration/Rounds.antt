-- ===== src/Db/Migration/Rounds.antt =====
-- One round of the loop of `Migrate`: which migration it takes, and which it never takes again.
use panthalassa.Base.{
  ℕ, zero, suc, ◌≡◌, ◌≢◌, ◌⊎◌, ◌<◌, ◌^◌, refl, true, false, Option, none, some, List, [], ◌∷◌,
  arith, All, ltb, put_uint32, uint32-put_uint32, length-put_uint32, bytes_beq_iff, Result, ok, err,
  Result-cases, Bool-cases, Option-cases, inl, inr, ◌∙◌,
}
use panthalassa.Bolt.{Transactions, Buckets, change, update-change}
use panthalassa.Db.Migration.{
  MigrationError, database_version, Database, Migration, first_above, version_in, read_version,
  version_body, update_version, Ended, finished, failed, Round, ended, again, migrate_up, round,
  loop,
}

module _ (T : Transactions MigrationError) (B : Buckets MigrationError) (Rest : Type 0) where
  abbrev pub Fits : List (Migration T B Rest) → Type 0
  Fits ms = All (λ (m : Migration T B Rest). m.version < 2 ^ 32) ms

  -- The search in a sorted list.
  abbrev pub find_in :
      List (Migration T B Rest) → ℕ → Result MigrationError (Option (Migration T B Rest))
  find_in ms v = ok (first_above T B Rest v ms)

  read-version_body :
      (version : ℕ) (db d : Database T B Rest)
      → version < 2 ^ 32
      → version_body T B Rest version db ≡ ok d
      → read_version T B Rest d ≡ ok version
  unfolding version_body read_version version_in
  read-version_body version db d fits h = elim (Option-cases db.system) [
    | inl e ↦ absurd (ground arith)
    | inr (b, e) ↦ elim (Result-cases (B.put database_version (put_uint32 version) b)) [
      | inr (x, f) ↦ absurd (ground arith)
      | inl (c, f) ↦ ground (
        arith,
        B.get-put database_version database_version (put_uint32 version) b c,
        bytes_beq_iff database_version database_version,
        length-put_uint32 version,
        uint32-put_uint32 version,
      )
    ]
  ]

  migrate_up-again :
      (m : Migration T B Rest) (db d : Database T B Rest)
      → migrate_up T B Rest m db ≡ again d
      → version_body T B Rest m.version (m.migrate db).1 ≡ ok d
  unfolding migrate_up update_version change
  migrate_up-again m db d h =
      let written = version_body T B Rest m.version (m.migrate db).1 in
      let update = update-change T (version_body T B Rest m.version) (m.migrate db).1 in
      elim (Result-cases (m.migrate db).0) [
        | inr (e, a) ↦ absurd (ground arith)
        | inl (u, a) ↦ elim (Result-cases written) [
          | inr (e, b) ↦ absurd (ground arith)
          | inl (c, b) ↦ ground arith
        ]
      ]

  pub read-migrate_up :
      (m : Migration T B Rest) (db d : Database T B Rest)
      → m.version < 2 ^ 32
      → migrate_up T B Rest m db ≡ again d
      → read_version T B Rest d ≡ ok m.version
  read-migrate_up m db d fits h =
      read-version_body m.version (m.migrate db).1 d fits (migrate_up-again m db d h)

  pub migrate_up-ended :
      (m : Migration T B Rest) (db d : Database T B Rest) (x : Ended T B Rest)
      → migrate_up T B Rest m db ≡ ended x d
      → x ≢ finished
  unfolding migrate_up
  migrate_up-ended m db d x h =
      let updated = update_version T B Rest m.version (m.migrate db).1 in
      elim (Result-cases (m.migrate db).0) [
        | inr (e, a) ↦ ground arith
        | inl (u, a) ↦ elim (Result-cases updated.0) [
          | inr (e, b) ↦ ground arith
          | inl (c, b) ↦ absurd (ground arith)
        ]
      ]

  first_above-some :
      (v : ℕ) (ms : List (Migration T B Rest)) (n : Migration T B Rest)
      → Fits ms
      → first_above T B Rest v ms ≡ some n
      → (v < n.version) × (n.version < 2 ^ 32)
  unfolding first_above
  first_above-some v [] n fits h = absurd (ground arith)
  first_above-some v (m ∷ ms) n fits h = elim (Bool-cases (ltb v m.version)) [
    | inl e ↦ ground arith
    | inr e ↦ first_above-some v ms n fits.1 (ground arith)
  ]

  pub Round-cases :
      (r : Round T B Rest)
      → ((e : Ended T B Rest) × (d : Database T B Rest) × (r ≡ ended e d))
        ⊎ ((d : Database T B Rest) × (r ≡ again d))
  Round-cases (ended e d) = inl (e, d, refl)
  Round-cases (again d) = inr (d, refl)

  pub round-found :
      (ms : List (Migration T B Rest)) (v : ℕ) (db : Database T B Rest) (n : Migration T B Rest)
      → read_version T B Rest db ≡ ok v
      → first_above T B Rest v ms ≡ some n
      → round T B Rest (find_in ms) db ≡ migrate_up T B Rest n db
  unfolding round
  round-found ms v db n e f = ground arith

  pub round-none :
      (ms : List (Migration T B Rest)) (v : ℕ) (db : Database T B Rest)
      → read_version T B Rest db ≡ ok v
      → first_above T B Rest v ms ≡ none
      → round T B Rest (find_in ms) db ≡ ended finished db
  unfolding round
  round-none ms v db e f = ground arith

  pub round-unreadable :
      (ms : List (Migration T B Rest)) (db : Database T B Rest) (x : MigrationError)
      → read_version T B Rest db ≡ err x
      → round T B Rest (find_in ms) db ≡ ended (failed x) db
  unfolding round
  round-unreadable ms db x e = ground arith

  pub first_above-here :
      (m : Migration T B Rest) (ms : List (Migration T B Rest)) (v : ℕ)
      → ltb v m.version ≡ true
      → first_above T B Rest v (m ∷ ms) ≡ some m
  unfolding first_above
  first_above-here m ms v high = ground arith

  first_above-skip :
      (m : Migration T B Rest) (ms : List (Migration T B Rest)) (v : ℕ)
      → ltb v m.version ≡ false
      → first_above T B Rest v (m ∷ ms) ≡ first_above T B Rest v ms
  unfolding first_above
  first_above-skip m ms v low = ground arith

  -- A migration that is not above the version is never found again.
  pub loop-skip :
      (m : Migration T B Rest) (ms : List (Migration T B Rest)) (fuel v : ℕ)
      (db : Database T B Rest)
      → Fits ms
      → ltb v m.version ≡ false
      → read_version T B Rest db ≡ ok v
      → loop T B Rest (find_in (m ∷ ms)) fuel db ≡ loop T B Rest (find_in ms) fuel db
  unfolding loop
  loop-skip m ms zero v db fits low e = refl
  loop-skip m ms (suc fuel) v db fits low e = elim (Option-cases (first_above T B Rest v ms)) [
    | inl f ↦
        ground
          (arith, first_above-skip m ms v low, round-none ms v db e f, round-none (m ∷ ms) v db e)
    | inr (n, f) ↦
        let (above, fit) = first_above-some v ms n fits f in
        let found = round-found ms v db n e f in
        let found_too = round-found (m ∷ ms) v db n e (first_above-skip m ms v low ∙ f) in
        elim (Round-cases (migrate_up T B Rest n db)) [
          | inl (x, d, g) ↦ ground arith
          | inr (d, g) ↦
              let ih =
                loop-skip m ms fuel n.version d fits (ground arith)
                  (read-migrate_up n db d fit g) in
              ground arith
        ]
  ]
