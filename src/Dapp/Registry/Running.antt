-- ===== src/Dapp/Registry/Running.antt =====
-- Which DApps run, and what a stream of a developer changes.
use panthalassa.Base.{
  ℕ, ◌≡◌, refl, true, false, Option, none, some, arith, Bytes, lookup, lookup-insert, lookup-remove,
  lookup-remove_self, bytes_beq, bytes_beq_iff, bytes_eq, hex_encode, Result, ok, err, Result-cases,
  Bool-cases, inl, inr, ◌∙◌, sym, ap,
}
use panthalassa.Bolt.{Transactions, Buckets}
use panthalassa.Identity.{Signing}
use panthalassa.Dapp.Data.{Data, verify_signature}
use panthalassa.Dapp.Storage.{StorageError, DappJson, get}
use panthalassa.Dapp.Registry.{
  timed_out, Run, late, Instance, State, new_state, Request, closed, add_stream, add, serve, fetch,
  new_dapp, add_started, start_dapp, send, receive_dapp,
}

module _ (Vm : Type 0) (T : Transactions StorageError) (B : Buckets StorageError) (S : Signing)
    (J : DappJson) where
  -- What any of the goroutines of the registry may do next: a `StartDApp` that ends with a message, a
  -- DApp that was shut down, a DApp from a developer.
  pub data Step : State Vm → State Vm → Type 0 where
    starts :
        (logger registered : Result ℕ (Unit {0})) (run : Run Vm) (key : Bytes)
        (stored : Option B.Bucket) (s : State Vm)
        → Step s (send Vm T B S J (start_dapp Vm T B S J logger registered run key stored).1 s)
    shuts : (d : Data) (s : State Vm) → Step s (serve Vm (closed d) s)
    develops :
        (stream : ℕ) (d : Data) (stored : Option B.Bucket) (s : State Vm)
        → Step s (receive_dapp Vm T B S J stream d (s, stored)).0

  pub data Reach : State Vm → Type 0 where
    begin : Reach (new_state Vm)
    step : (s t : State Vm) → Reach s → Step s t → Reach t

  -- Each DApp runs under the name of its key, and its signature verifies.
  abbrev pub IsVerified : State Vm → Type 0
  IsVerified s =
      (name : Bytes) (i : Instance Vm)
      → lookup name s.instances ≡ some i
      → (hex_encode i.app.used_signing_key ≡ name) × (verify_signature S i.app ≡ ok true)

  abbrev MayBeServed : Option (Request Vm) → Type 0
  MayBeServed q = (i : Instance Vm) → q ≡ some (add i) → verify_signature S i.app ≡ ok true

  start_dapp-MayBeServed :
      (logger registered : Result ℕ (Unit {0})) (run : Run Vm) (key : Bytes)
      (stored : Option B.Bucket)
      → MayBeServed (start_dapp Vm T B S J logger registered run key stored).1
  unfolding start_dapp new_dapp add_started
  start_dapp-MayBeServed logger registered run key stored i h =
      elim (Result-cases (get T B S J key stored)) [
        | inr (e, a) ↦ absurd (ground arith)
        | inl (none, a) ↦ absurd (ground arith)
        | inl (some d, a) ↦ elim (Result-cases logger) [
          | inr (e, l) ↦ absurd (ground arith)
          | inl (u, l) ↦ elim (Result-cases (verify_signature S d)) [
            | inr (e, b) ↦ absurd (ground arith)
            | inl (false, b) ↦ absurd (ground arith)
            | inl (true, b) ↦ elim (Result-cases registered) [
              | inr (e, c) ↦ absurd (ground arith)
              | inl (v, c) ↦ ground arith
            ]
          ]
        ]
      ]

  send-IsVerified :
      (q : Option (Request Vm)) (s : State Vm)
      → MayBeServed q
      → IsVerified s
      → IsVerified (send Vm T B S J q s)
  unfolding send serve
  send-IsVerified none s may inv = inv
  send-IsVerified (some (closed d)) s may inv = λ name i h.
      inv name i (ground (arith, lookup-remove (hex_encode d.used_signing_key) name s.instances))
  send-IsVerified (some (add_stream k n)) s may inv = inv
  send-IsVerified (some (add j)) s may inv = λ name i h.
      let signed = may j refl in
      let own = hex_encode j.app.used_signing_key in
      let looked = lookup-insert own name j s.instances in
      elim (Bool-cases (bytes_beq own name)) [
        | inr e ↦ inv name i (ground arith)
        | inl e ↦
            let same = (bytes_beq_iff own name).0 e in
            let is_j : j ≡ i = ground arith in (ground arith, ground arith)
      ]

  receive_dapp-instances :
      (stream : ℕ) (d : Data) (stored : Option B.Bucket) (s : State Vm)
      → (receive_dapp Vm T B S J stream d (s, stored)).0.instances ≡ s.instances
  unfolding receive_dapp serve
  receive_dapp-instances stream d stored s = ground arith

  Step-IsVerified : (s t : State Vm) → Step s t → IsVerified s → IsVerified t
  Step-IsVerified s t (starts logger registered run key stored _) inv =
      send-IsVerified (start_dapp Vm T B S J logger registered run key stored).1 s
        (start_dapp-MayBeServed logger registered run key stored) inv
  Step-IsVerified s t (shuts d _) inv =
      unfold send in send-IsVerified (some (closed d)) s (λ i h. absurd (ground arith)) inv
  Step-IsVerified s t (develops stream d stored _) inv =
      λ name i h. inv name i (ap (lookup name) (sym (receive_dapp-instances stream d stored s)) ∙ h)

  -- However the starts of DApps, their ends and the DApps of developers follow each other from a
  -- new registry, each running DApp is listed under its own signing key, and its signature
  -- verifies.
  pub Reach-IsVerified : (s : State Vm) → Reach s → IsVerified s
  unfolding new_state lookup
  Reach-IsVerified s begin = λ name i h. absurd (ground arith)
  Reach-IsVerified s (step r _ before st) = Step-IsVerified r s st (Reach-IsVerified r before)

  -- A start of a stored, signed DApp that is too late sends the message that closes this DApp,
  -- after which the registry does not find a running instance of it.
  pub start_dapp_late :
      (key : Bytes) (d : Data) (stored : Option B.Bucket) (s : State Vm)
      → get T B S J key stored ≡ ok (some d)
      → d.used_signing_key ≡ key
      → verify_signature S d ≡ ok true
      → (start_dapp Vm T B S J (ok tt) (ok tt) late key stored ≡ (err timed_out, some (closed d)))
        × (fetch Vm key (serve Vm (closed d) s) ≡ none)
  unfolding start_dapp new_dapp add_started fetch serve
  start_dapp_late key d stored s found own valid =
      (ground arith, ground (arith, lookup-remove_self (hex_encode key) s.instances))
