-- ===== src/Db/SharedSecrets/Youngest.antt =====
-- Which secret `GetYoungest` returns.
use mathlib.Core.List.{Mem, mem-cons_self}
use mathlib.Core.List.Perm
use panthalassa.Base.{
  ◌≡◌, refl, false, Option, some, List, [], ◌∷◌, arith, Bytes, ok, >>=-eq-ok, Result-cases, inl,
  inr,
}
use panthalassa.Bolt.{Transactions, Buckets, Nested}
use panthalassa.Bolt.Within.{entries_at}
use panthalassa.Db.Vault.{Vault, DbError}
use panthalassa.Identity.{after}
use panthalassa.Db.SharedSecrets.{
  SharedSecret, PersistedSharedSecret, SecretJson, Sorting, decrypt_persisted_shared_secret,
  unmarshal_all, decrypt_first, get_youngest,
}

decrypt_first-some :
    (T : Transactions DbError) (B : Buckets DbError) (N : Nested DbError B.Bucket B.empty)
    (V : Vault) (J : SecretJson) (ps : List PersistedSharedSecret) (ss : SharedSecret)
    → decrypt_first T B N V J ps ≡ ok (some ss)
    → (p : PersistedSharedSecret) × (rest : List PersistedSharedSecret) × (ps ≡ p ∷ rest)
      × (decrypt_persisted_shared_secret V p ≡ ok ss)
unfolding decrypt_first
decrypt_first-some T B N V J [] ss h = absurd (ground arith)
decrypt_first-some T B N V J (p ∷ rest) ss h =
    elim (Result-cases (decrypt_persisted_shared_secret V p)) [
      | inr (e, ee) ↦ absurd (ground arith)
      | inl (a, e) ↦ (p, rest, refl, ground arith)
    ]

module _ (T : Transactions DbError) (B : Buckets DbError) (N : Nested DbError B.Bucket B.empty)
    (V : Vault) (J : SecretJson) (Q : Sorting) where
  -- `GetYoungest` decrypts a stored secret than which no other stored secret is younger.
  pub get_youngest_sound :
      (partner : Bytes) (s : Option N.Outer) (ss : SharedSecret)
      → get_youngest T B N V J Q partner s ≡ ok (some ss)
      → (secrets : List PersistedSharedSecret) × (p : PersistedSharedSecret) × (unmarshal_all T B N
            V J
            (entries_at B N partner s)
          ≡ ok secrets)
        × (decrypt_persisted_shared_secret V p ≡ ok ss)
        × Mem p secrets
        × ((q : PersistedSharedSecret)
            → Mem q secrets
            → after q.shared_secret.created_at p.shared_secret.created_at ≡ false)
  unfolding get_youngest
  get_youngest_sound partner s ss h =
      let (secrets, e, r) = >>=-eq-ok (unmarshal_all T B N V J (entries_at B N partner s)) _ h in
      let (p, rest, order, opened) = decrypt_first-some T B N V J (Q.sort secrets) ss r in
      let there : Mem p (Q.sort secrets) = rw order mem-cons_self in
      (
        secrets,
        p,
        e,
        opened,
        (Perm.mem_iff (Q.Perm-sort secrets)).0 there,
        λ q m.
            Q.sorted secrets rest p q order
              (rw order at ((Perm.mem_iff (Q.Perm-sort secrets)).1 m)),
      )
