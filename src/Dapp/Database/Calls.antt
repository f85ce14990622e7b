-- ===== src/Dapp/Database/Calls.antt =====
-- The functions of the VM together: what "put" stored, "has" and "get" find.
use panthalassa.Base.{
  ◌≡◌, true, Option, some, List, [], ◌∷◌, arith, Bytes, length, nat_beq, bytes_beq_iff, ok, ◌>>=◌,
  Result-cases, Bool-cases, inl, inr,
}
use panthalassa.Bolt.{Transactions, Buckets, Nested}
use panthalassa.Db.Vault.{DbError}
use panthalassa.Dapp.Validator.{Otto, argument, validate}
use panthalassa.Dapp.Database.{
  put, get, has, is_some, ValueJson, called, called_has, called_value, decreased, put_rules,
  key_rules, put_call, put_effects, put_job, has_call, has_effects, get_call, get_effects,
}
use panthalassa.Dapp.Database.Isolated.{get-put_value}

module _ (T : Transactions DbError) (B : Buckets DbError) (N : Nested DbError B.Bucket B.empty)
    (O : Otto) (J : ValueJson O) where
  put_call-ok :
      (dapp key value : Bytes) (call : List O.Value)
      → put_call O T B N J dapp call ≡ ok (key, value)
      → (O.text (argument O call 0) ≡ key) × (J.marshal (argument O call 1) ≡ ok value)
  unfolding put_call
  put_call-ok dapp key value call h = elim (Result-cases (validate O (put_rules O) call)) [
    | inr (e, a) ↦ absurd (ground arith)
    | inl (u, a) ↦ elim (Result-cases (J.marshal (argument O call 1))) [
      | inr (e, b) ↦ absurd (ground arith)
      | inl (v, b) ↦ (ground arith, ground arith)
    ]
  ]

  has-get :
      (dapp key value : Bytes) (s : Option N.Outer)
      → get T B N dapp key s ≡ ok (some value)
      → has T B N dapp key s ≡ ok true
  unfolding has get is_some
  has-get dapp key value s h = elim (Bool-cases (nat_beq (length dapp) 32)) [
    | inr e ↦ absurd (ground arith)
    | inl e ↦ ground arith
  ]

  -- Where a call of put was accepted and its value was stored without an error, the job calls the
  -- callback once and decreases the limiter once; a valid call of has with that key then answers
  -- true, and one of get gives what JSON makes of the value that was put, where the JSON form of
  -- that value can be read.
  pub get_call-put_job :
      (dapp key value : Bytes) (call later : List O.Value) (cb back : O.Value)
      (s t : Option N.Outer)
      → put_call O T B N J dapp call ≡ ok (key, value)
      → put T B N dapp key value s ≡ (ok tt, t)
      → validate O (key_rules O) later ≡ ok tt
      → O.text (argument O later 0) ≡ O.text (argument O call 0)
      → (J.marshal (argument O call 1) >>= J.unmarshal) ≡ ok back
      → (put_job O T B N J dapp (key, value) cb s ≡ (decreased ∷ called ∷ [], t))
        × (has_call O T B N J dapp later t ≡ called_has true ∷ [])
        × (get_call O T B N J dapp later t ≡ called_value back ∷ [])
  unfolding put_job put_effects has_call has_effects get_call get_effects
  get_call-put_job dapp key value call later cb back s t accepted stored valid same read =
      let (is_key, marshalled) = put_call-ok dapp key value call accepted in
      let named : O.text (argument O later 0) ≡ key = ground arith in
      let again : J.unmarshal value ≡ ok back = ground arith in
      let found = get-put_value T B N dapp key value s t stored dapp key in
      let here : get T B N dapp key t ≡ ok (some value) =
        ground (arith, bytes_beq_iff dapp dapp, bytes_beq_iff key key) in
      let there = has-get dapp key value t here in (ground arith, ground arith, ground arith)
