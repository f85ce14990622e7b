-- ===== src/Dapp/Registry.antt =====
-- dapp/registry, and `New` of dapp/dapp.go: the goroutine that keeps the running DApps and the streams
-- of their developers. Each message to it is an operation. The VM with its modules is a value of the
-- type `Vm`; how the modules register and how the code runs are arguments. A stream is a number.
pub mod Running
use panthalassa.Base.{
  ℕ, true, false, Option, none, some, List, [], ◌∷◌, Bytes, Assoc, lookup, insert, remove, bytes_eq,
  hex_encode, Result, ok, err, ◌>>=◌, ◌>>◌, map_err,
}
use panthalassa.Bolt.{Transactions, Buckets}
use panthalassa.Identity.{Signing}
use panthalassa.Dapp.Data.{Data, DappError, RawData, Base64, verify_signature, parse_json_to_data}
use panthalassa.Dapp.Storage.{StorageError, DappJson, save_dapp, get}

pub data RegistryError : Type 0 where
  not_started missing timed_out invalid_signature : RegistryError
  storage : StorageError → RegistryError
  dapp : DappError → RegistryError
  foreign : ℕ → RegistryError

-- How the code of a DApp ended within its time.
pub data Run (Vm : Type 0) : Type 0 where
  ran : Vm → Run Vm
  threw : ℕ → Run Vm
  late : Run Vm

module _ (Vm : Type 0) where
  pub record Instance : Type 0 where
    pub app : Data
    pub vm : Vm

  pub record State : Type 0 where
    pub instances : Assoc Bytes Instance
    pub streams : Assoc Bytes ℕ

  unfoldable pub new_state : State
  new_state = record { instances = []; streams = [] }

  -- The messages that change the state.
  pub data Request : Type 0 where
    closed : Data → Request
    add_stream : Bytes → ℕ → Request
    add : Instance → Request

  unfoldable pub serve : Request → State → State
  serve (closed d) s = record s { instances = remove (hex_encode d.used_signing_key) s.instances }
  serve (add_stream key stream) s = record s { streams = insert (hex_encode key) stream s.streams }
  serve (add i) s = record s {
    instances = insert (hex_encode i.app.used_signing_key) i s.instances;
  }

  unfoldable pub fetch : Bytes → State → Option Instance
  fetch key s = lookup (hex_encode key) s.instances

  unfoldable pub fetch_stream : Bytes → State → Option ℕ
  fetch_stream key s = lookup (hex_encode key) s.streams

  -- `OpenDApp`, `RenderMessage`, `CallFunction` and `ShutDown`, which differ in what they call.
  unfoldable pub on_running :
      {A : Type 0} → (Instance → Result RegistryError A) → Bytes → State → Result RegistryError A
  unfolding fetch
  on_running call key s = elim (fetch key s) [ none ↦ err not_started | some i ↦ call i ]

  -- `New`, with the message that it sends to the registry.
  unfoldable pub new_dapp :
      Signing → Result ℕ (Unit {0}) → Run Vm → Data → Result RegistryError Instance × Option Request
  new_dapp S registered run d = elim (verify_signature S d) [
    | err e ↦ (err (dapp e), none)
    | ok false ↦ (err invalid_signature, none)
    | ok true ↦ elim registered [
      | err e ↦ (err (foreign e), none)
      | ok u ↦ elim run [
        | ran vm ↦ (ok (record { app = d; vm = vm }), none)
        | threw e ↦ (err (foreign e), none)
        | late ↦ (err timed_out, some (closed d))
      ]
    ]
  ]

  unfoldable pub add_started :
      Result RegistryError Instance × Option Request
      → Result RegistryError (Unit {0}) × Option Request
  add_started (ok i, q) = (ok tt, some (add i))
  add_started (err e, q) = (err e, q)

  module _ (T : Transactions StorageError) (B : Buckets StorageError) (S : Signing)
      (J : DappJson) where
    -- `StartDApp`, with the message that it sends; `logger` is what making the logger gives.
    unfoldable pub start_dapp :
        Result ℕ (Unit {0})
        → Result ℕ (Unit {0})
        → Run Vm
        → Bytes
        → Option B.Bucket
        → Result RegistryError (Unit {0}) × Option Request
    unfolding new_dapp add_started
    start_dapp logger registered run key stored = elim (get T B S J key stored) [
      | err e ↦ (err (storage e), none)
      | ok none ↦ (err missing, none)
      | ok (some d) ↦ elim logger [
        | err e ↦ (err (foreign e), none)
        | ok u ↦ add_started (new_dapp S registered run d)
      ]
    ]

    unfoldable pub send : Option Request → State → State
    unfolding serve
    send none s = s
    send (some q) s = serve q s

    -- The DApps that come with the program.
    unfoldable pub load_defaults :
        Base64 → List RawData → Option B.Bucket → Result RegistryError (Unit {0}) × Option B.Bucket
    load_defaults E [] stored = (ok tt, stored)
    load_defaults E (raw ∷ raws) stored = elim (parse_json_to_data E raw) [
      | err e ↦ (err (dapp e), stored)
      | ok d ↦ elim (save_dapp T B S J d stored).0 [
        | err e ↦ (err (storage e), (save_dapp T B S J d stored).1)
        | ok u ↦ load_defaults E raws (save_dapp T B S J d stored).1
      ]
    ]

    -- A DApp that was read from the stream of a developer.
    unfoldable pub receive_dapp : ℕ → Data → State × Option B.Bucket → State × Option B.Bucket
    unfolding serve
    receive_dapp stream d (s, stored) =
        let followed = serve (add_stream d.used_signing_key stream) s in
        elim (verify_signature S d) [
          | err e ↦ (followed, stored)
          | ok false ↦ (followed, stored)
          | ok true ↦ (followed, (save_dapp T B S J d stored).1)
        ]

    -- A line of `devStreamHandler`; `unmarshal` is that of encoding/json. An error is logged.
    unfoldable pub dev_line :
        Base64
        → (Bytes → Result ℕ RawData)
        → ℕ
        → Bytes
        → State × Option B.Bucket
        → State × Option B.Bucket
    unfolding receive_dapp
    dev_line E unmarshal stream line both =
        elim (map_err foreign (E.decode line) >>= λ json.
        map_err foreign (unmarshal json) >>= λ raw. map_err dapp (parse_json_to_data E raw)) [
          | err e ↦ both
          | ok d ↦ receive_dapp stream d both
        ]
