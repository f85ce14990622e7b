-- ===== src/Dapp/Database.antt =====
-- dapp/module/db: the values that a DApp stores, and the functions of the VM with which it does so. What
-- a function does is a list of effects in their order: callbacks, messages to the limiter, log lines.
pub mod Isolated
pub mod Calls
use panthalassa.Base.{
  ℕ, Bool, true, false, Option, none, some, List, [], ◌∷◌, ◌++◌, Bytes, length, nat_beq,
  if◌then◌else◌, Result, ok, err, ◌>>=◌, ◌>>◌, guard,
}
use panthalassa.Bolt.{Transactions, Buckets, Nested, change}
use panthalassa.Bolt.Within.{raw_at, put_at, delete_at}
use panthalassa.Db.Vault.{DbError, not_32_bytes}
use panthalassa.Dapp.Validator.{
  Otto, ValidationError, CallValidator, argument, set, validate, type_string, type_function,
}

module _ (T : Transactions DbError) (B : Buckets DbError)
    (N : Nested DbError B.Bucket B.empty) where
  -- The bucket of the DApp with this signing key is created where it is missing.
  unfoldable pub put_body : Bytes → Bytes → Bytes → Option N.Outer → Result DbError (Option N.Outer)
  put_body dapp key value s = do
    guard (nat_beq (length dapp) 32) not_32_bytes
    put_at B N dapp key (ok value) s

  unfoldable pub put :
      Bytes → Bytes → Bytes → Option N.Outer → Result DbError (Unit {0}) × Option N.Outer
  unfolding put_body
  put dapp key value = T.update (Option N.Outer) (Unit {0}) (change (put_body dapp key value))

  unfoldable pub delete_body : Bytes → Bytes → Option N.Outer → Result DbError (Option N.Outer)
  delete_body dapp key s = do
    guard (nat_beq (length dapp) 32) not_32_bytes
    delete_at B N dapp key s

  unfoldable pub delete :
      Bytes → Bytes → Option N.Outer → Result DbError (Unit {0}) × Option N.Outer
  unfolding delete_body
  delete dapp key = T.update (Option N.Outer) (Unit {0}) (change (delete_body dapp key))

  unfoldable pub get : Bytes → Bytes → Option N.Outer → Result DbError (Option Bytes)
  get dapp key s = do guard (nat_beq (length dapp) 32) not_32_bytes; ok (raw_at B N dapp key s)

  unfoldable pub is_some : Option Bytes → Bool
  is_some none = false
  is_some (some v) = true

  unfoldable pub has : Bytes → Bytes → Option N.Outer → Result DbError Bool
  unfolding is_some
  has dapp key s = do
    guard (nat_beq (length dapp) 32) not_32_bytes
    ok (is_some (raw_at B N dapp key s))

-- `Export` and then `json.Marshal`, and `json.Unmarshal`, which fails at the empty text.
pub record ValueJson (O : Otto) : Type 0 where
  pub marshal : O.Value → Result ℕ Bytes
  pub unmarshal : Bytes → Result ℕ O.Value

pub data CallError : Type 0 where
  validation : ValidationError → CallError
  storage : DbError → CallError
  json : ℕ → CallError

module _ (O : Otto) where
  pub data Effect : Type 0 where
    called_error : CallError → Effect
    called : Effect
    called_has : Bool → Effect
    called_value : O.Value → Effect
    decreased : Effect
    logged : CallError → Effect

  -- `handleError`
  unfoldable pub handle_error : CallError → O.Value → List Effect
  handle_error e cb = if O.is_function cb then called_error e ∷ [] else logged e ∷ []

  -- The rules of "put", and those of the other functions.
  unfoldable pub put_rules : CallValidator O
  unfolding set type_string type_function
  put_rules = set O 2 (type_function O) (set O 0 (type_string O) [])

  unfoldable pub key_rules : CallValidator O
  unfolding set type_string type_function
  key_rules = set O 1 (type_function O) (set O 0 (type_string O) [])

  module _ (T : Transactions DbError) (B : Buckets DbError) (N : Nested DbError B.Bucket B.empty)
      (J : ValueJson O) (dapp : Bytes) where
    -- "put": the effects of a call that is refused, or the key and the value of the job that the
    -- limiter is given.
    unfoldable pub put_call : List O.Value → Result (List Effect) (Bytes × Bytes)
    unfolding handle_error argument put_rules
    put_call call =
        let cb = argument O call 2 in
        elim (validate O put_rules call) [
          | err e ↦ err (handle_error (validation e) cb)
          | ok u ↦ elim (J.marshal (argument O call 1)) [
            | err e ↦ err (handle_error (json e) cb)
            | ok value ↦ ok (O.text (argument O call 0), value)
          ]
        ]

    -- The job. There is no return behind its error.
    unfoldable pub put_effects : Result DbError (Unit {0}) → O.Value → List Effect
    unfolding handle_error
    put_effects (ok u) cb = decreased ∷ called ∷ []
    put_effects (err e) cb = decreased ∷ (handle_error (storage e) cb ++ (decreased ∷ called ∷ []))

    unfoldable pub put_job : Bytes × Bytes → O.Value → Option N.Outer → List Effect × Option N.Outer
    unfolding put_effects
    put_job (key, value) cb s =
        let done = put T B N dapp key value s in (put_effects done.0 cb, done.1)

    unfoldable pub has_effects : Result DbError Bool → O.Value → List Effect
    unfolding handle_error
    has_effects (err e) cb = handle_error (storage e) cb
    has_effects (ok b) cb = called_has b ∷ []

    -- "has"
    unfoldable pub has_call : List O.Value → Option N.Outer → List Effect
    unfolding has_effects handle_error argument key_rules
    has_call call s =
        let cb = argument O call 1 in
        elim (validate O key_rules call) [
          | err e ↦ handle_error (validation e) cb
          | ok u ↦ has_effects (has T B N dapp (O.text (argument O call 0)) s) cb
        ]

    -- A value that is missing is the empty text.
    unfoldable pub get_effects : Result DbError (Option Bytes) → O.Value → List Effect
    unfolding handle_error
    get_effects (err e) cb = handle_error (storage e) cb
    get_effects (ok value) cb = elim (J.unmarshal (elim value [ none ↦ [] | some raw ↦ raw ])) [
      | err e ↦ handle_error (json e) cb
      | ok v ↦ called_value v ∷ []
    ]

    -- "get"
    unfoldable pub get_call : List O.Value → Option N.Outer → List Effect
    unfolding get_effects handle_error argument key_rules
    get_call call s =
        let cb = argument O call 1 in
        elim (validate O key_rules call) [
          | err e ↦ handle_error (validation e) cb
          | ok u ↦ get_effects (get T B N dapp (O.text (argument O call 0)) s) cb
        ]

    unfoldable pub delete_effects : Result DbError (Unit {0}) → O.Value → List Effect
    unfolding handle_error
    delete_effects (err e) cb = handle_error (storage e) cb
    delete_effects (ok u) cb = called ∷ []

    -- "delete"
    unfoldable pub delete_call : List O.Value → Option N.Outer → List Effect × Option N.Outer
    unfolding delete_effects handle_error argument key_rules
    delete_call call s =
        let cb = argument O call 1 in
        let done = delete T B N dapp (O.text (argument O call 0)) s in
        elim (validate O key_rules call) [
          | err e ↦ (handle_error (validation e) cb, s)
          | ok u ↦ (delete_effects done.0 cb, done.1)
        ]
