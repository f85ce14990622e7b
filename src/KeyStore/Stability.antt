-- ===== src/KeyStore/Stability.antt =====
-- What the migrations of a key store keep.
use mathlib.Core.Path.{fun_ext}
use panthalassa.Base.{
  ◌≡◌, ◌⊎◌, refl, true, String, Option, none, some, [], ◌∷◌, arith, Bytes, lookup, insert,
  string_eq, bytes_beq_iff, lookup-insert, lookup-insert_self, insert_idem, eq_iff, Result, ok, err,
  hex_encode, ◌>>=◌, ◌>>◌, >>=-eq-ok,
}
use panthalassa.KeyStore.Migrations.{
  Foreign, Keys, KeyStoreError, check_key, ethereum_up, ed25519_up, chat_up, encryption_key_up,
  ethereum_key, ed25519_pair, chat_pair, encryption_secret, write_ed25519, write_chat,
  ed25519_private_key, ed25519_public_key, chat_private_key, chat_public_key,
  ed25519_private_mismatch, ed25519_public_mismatch, chat_private_mismatch, chat_public_mismatch,
}
use panthalassa.KeyStore.{
  Store, run_migrations, migrate_up, was_migrated, deep_equal, has_all, same_value,
}

-- Every entry of `m` is in `n`.
abbrev Extends : Keys → Keys → Type 0
Extends m n = (k : String) (v : Bytes) → lookup k m ≡ some v → lookup k n ≡ some v

Extends-trans : (a b c : Keys) → Extends a b → Extends b c → Extends a c
Extends-trans a b c p q k v h = q k v (p k v h)

-- A checked write keeps what is there, and is found.
insert-Extends :
    (k : String) (v : Bytes) (e : KeyStoreError) (m : Keys)
    → check_key k v e m ≡ ok tt
    → Extends m (insert k v m)
unfolding check_key
insert-Extends k v e m h j w p =
    ground (arith, lookup-insert k j v m, eq_iff k j, bytes_beq_iff w v)

-- A write of what is there passes the check and changes nothing.
check_key_stored :
    (k : String) (v : Bytes) (e : KeyStoreError) (m : Keys)
    → lookup k m ≡ some v
    → check_key k v e m ≡ ok tt
unfolding check_key
check_key_stored k v e m h = ground (arith, (bytes_beq_iff v v).1 refl)

-- A migration that succeeds keeps every entry, and run again, on its result or on any store with
-- more entries, changes nothing.
pub record Settles (up : Keys → Result KeyStoreError Keys) : Type 0 where
  pub keeps : (m n : Keys) → up m ≡ ok n → Extends m n
  pub settled : (m n p : Keys) → up m ≡ ok n → Extends n p → up p ≡ ok p

Settles-bind :
    (f g : Keys → Result KeyStoreError Keys) → Settles f → Settles g → Settles (λ m. f m >>= g)
Settles-bind f g sf sg = record {
  keeps = λ m n h.
      let (a, e, e') = >>=-eq-ok (f m) g h in
      Extends-trans m a n (sf.keeps m a e) (sg.keeps a n e');
  settled = λ m n p h x.
      let (a, e, e') = >>=-eq-ok (f m) g h in
      rw (sf.settled m a p e (Extends-trans a n p (sg.keeps a n e') x)) (sg.settled a n p e' x);
}

-- A migration whose keys are derived first.
Settles-derived {ℓ} :
    {A : Type ℓ} (r : Result KeyStoreError A) (f : A → Keys → Result KeyStoreError Keys)
    → ((a : A) → Settles (f a))
    → Settles (λ m. r >>= λ a. f a m)
Settles-derived (ok a) f h = h a
Settles-derived (err e) f h = record { keeps = λ m n p. cc; settled = λ m n p e'. cc }

abbrev write : String → Bytes → KeyStoreError → Keys → Result KeyStoreError Keys
write k v e m = check_key k v e m >> ok (insert k v m)

write_ok :
    (k : String) (v : Bytes) (e : KeyStoreError) (m n : Keys)
    → write k v e m ≡ ok n
    → (check_key k v e m ≡ ok tt) × (insert k v m ≡ n)
unfolding check_key
write_ok k v e m n h = ground arith

write_stored :
    (k : String) (v : Bytes) (e : KeyStoreError) (m : Keys)
    → lookup k m ≡ some v
    → write k v e m ≡ ok m
write_stored k v e m h = rw (check_key_stored k v e m h) (rw (insert_idem k v m h))

Settles-write : (k : String) (v : Bytes) (e : KeyStoreError) → Settles (write k v e)
Settles-write k v e = record {
  keeps = λ m n h.
      let (c, i) = write_ok k v e m n h in λ j w q. rw (← i) (insert-Extends k v e m c j w q);
  settled = λ m n p h x.
      write_stored k v e p (x k v (rw (← (write_ok k v e m n h).1) (lookup-insert_self k v m)));
}

check_key-cases :
    (k : String) (v : Bytes) (e : KeyStoreError) (m : Keys)
    → (check_key k v e m ≡ ok tt) ⊎ (check_key k v e m ≡ err e)
unfolding check_key
check_key-cases k v e m = ground arith

Settles-same :
    (f g : Keys → Result KeyStoreError Keys) → ((m : Keys) → g m ≡ f m) → Settles f → Settles g
Settles-same f g same s = rw (fun_ext same) s

Settles-write_ed25519 : (pair : Bytes × Bytes) → Settles (write_ed25519 pair)
unfolding write_ed25519
Settles-write_ed25519 (public, private) =
    Settles-same
      (λ m.
        write ed25519_private_key (hex_encode private) ed25519_private_mismatch m
        >>= write ed25519_public_key (hex_encode public) ed25519_public_mismatch)
      (write_ed25519 (public, private))
      (λ m. ground (
        arith,
        check_key-cases ed25519_private_key (hex_encode private) ed25519_private_mismatch m,
      ))
      (Settles-bind _ _ (Settles-write _ _ _) (Settles-write _ _ _))

-- The check of one key does not see the write of another.
check_key-insert :
    (v w : Bytes) (m : Keys)
    → check_key chat_public_key v chat_public_mismatch (insert chat_private_key w m)
      ≡ check_key chat_public_key v chat_public_mismatch m
unfolding check_key
check_key-insert v w m = rw (lookup-insert chat_private_key chat_public_key w m, check_key)

Settles-write_chat : (pair : Bytes × Bytes) → Settles (write_chat pair)
unfolding write_chat
Settles-write_chat (public, private) =
    Settles-same
      (λ m.
        write chat_private_key (hex_encode private) chat_private_mismatch m
        >>= write chat_public_key (hex_encode public) chat_public_mismatch)
      (write_chat (public, private))
      (λ m. ground (
        arith,
        check_key-cases chat_private_key (hex_encode private) chat_private_mismatch m,
        check_key-insert (hex_encode public) (hex_encode private) m,
      ))
      (Settles-bind _ _ (Settles-write _ _ _) (Settles-write _ _ _))

module _ (F : Foreign) (mnemonic : Bytes) where
  Settles-run : Settles (run_migrations F mnemonic)
  unfolding run_migrations ethereum_up ed25519_up chat_up encryption_key_up
  Settles-run =
      Settles-bind (ethereum_up F mnemonic) _
        (Settles-derived (ethereum_key F mnemonic) _ (λ k. Settles-write _ k _))
        (Settles-bind (ed25519_up F mnemonic) _
          (Settles-derived (ed25519_pair F mnemonic) _ Settles-write_ed25519)
          (Settles-bind (chat_up F mnemonic) (encryption_key_up F mnemonic)
            (Settles-derived (chat_pair F mnemonic) _ Settles-write_chat)
            (Settles-derived (encryption_secret F mnemonic) _ (λ k. Settles-write _ k _))))

same_value_refl : (o : Option Bytes) → same_value o o ≡ true
unfolding same_value
same_value_refl none = refl
same_value_refl (some v) = (bytes_beq_iff v v).1 refl

has_all_refl : (entries m : Keys) → has_all entries m m ≡ true
unfolding has_all
has_all_refl [] m = refl
has_all_refl ((k, v) ∷ rest) m = rw (same_value_refl (lookup k m)) (has_all_refl rest m)

deep_equal_refl : (m : Keys) → deep_equal m m ≡ true
unfolding deep_equal
deep_equal_refl m = ground (arith, has_all_refl m m)

migrate_up_ok :
    (F : Foreign) (s t : Store)
    → migrate_up F s ≡ ok t
    → (run_migrations F s.mnemonic s.keys ≡ ok t.keys)
      × (t ≡ record s { keys = t.keys; changed = true })
unfolding migrate_up
migrate_up_ok F s t up =
    let (n, e, e') = >>=-eq-ok (run_migrations F s.mnemonic s.keys) _ up in
    (ground arith, ground (arith, deep_equal_refl n))

module _ (F : Foreign) (s t : Store) (up : migrate_up F s ≡ ok t) where
  -- A store that was migrated without an error holds every key of the store before with the same
  -- value.
  pub lookup-migrate_up :
      (k : String) (v : Bytes) → lookup k s.keys ≡ some v → lookup k t.keys ≡ some v
  lookup-migrate_up = (Settles-run F s.mnemonic).keeps s.keys t.keys (migrate_up_ok F s t up).0

  -- To migrate a store again that was migrated without an error succeeds and gives the same
  -- store, so that keys once derived are stable however often the store is read.
  pub migrate_up_idem : migrate_up F t ≡ ok t
  unfolding migrate_up
  migrate_up_idem =
      let (e, same) = migrate_up_ok F s t up in
      let again = (Settles-run F s.mnemonic).settled s.keys t.keys t.keys e (λ k v h. h) in
      ground (arith, deep_equal_refl t.keys)

  -- `WasMigrated` is true after any migration that succeeds, whether it added a key or not, as
  -- the comparison is of the map with itself.
  pub was_migrated-migrate_up : was_migrated t ≡ true
  unfolding was_migrated
  was_migrated-migrate_up = ground (arith, migrate_up_ok F s t up)
