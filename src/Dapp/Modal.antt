-- ===== src/Dapp/Modal.antt =====
-- dapp/module/modal/module.go: the modals that a DApp shows. One goroutine owns the functions that close
-- them, by their ids; each message to it is an operation. What a function of the VM does is a list of
-- effects. The jobs of the limiter and the calls of `CloseModal` run in goroutines of their own, whose
-- steps may lie between each other. That a callback throws is only logged where the code does
-- nothing else.
pub mod Closing
use panthalassa.Base.{
  ℕ, suc, ◌<◌, ◌≡◌, true, false, Bool, Option, none, some, List, [], ◌∷◌, ◌++◌, Bytes, Assoc,
  lookup, insert, remove, bytes_eq, nat_eq, if◌then◌else◌, Result, ok, err,
}
use panthalassa.Limits.CountThrottling.{
  Throttle, exec, inc_current, dec_current, new_count_throttling,
}
use panthalassa.Dapp.Validator.{
  Otto, ValidationError, CallValidator, argument, set, validate, type_string, type_function,
}

module _ (O : Otto) where
  pub data Effect : Type 0 where
    logged : ValidationError → Effect
    logged_callback : Effect
    called : Effect
    called_new : Bytes → Effect
    called_error : ℕ → Effect
    called_missing_modal_id : Bytes → Effect
    called_render_failed : Effect
    rendered : Bytes → Bytes → Effect  -- the device is asked to show a layout
    closer_called : O.Value → Effect

  -- A job of the limiter: the id, the function that closes the modal, and the callback.
  pub record Job : Type 0 where
    pub id : Bytes
    pub closer : O.Value
    pub callback : O.Value

  pub record Module : Type 0 where
    pub modals : Assoc Bytes O.Value
    pub req_lim : Throttle
    pub jobs : Assoc ℕ Job

  -- Sixty seconds of cool down, in nanoseconds.
  unfoldable pub new_module : Module
  new_module = record { modals = []; req_lim = new_count_throttling 6 60000000000 20; jobs = [] }

  -- The messages `addModalIDChan`, `fetchModalCloserChan` and `deleteModalID`.
  unfoldable pub add_modal : Bytes → O.Value → Module → Module
  add_modal id closer m = record m { modals = insert id closer m.modals }

  unfoldable pub fetch_closer : Bytes → Module → Option O.Value
  fetch_closer id m = lookup id m.modals

  unfoldable pub delete_modal : Bytes → Module → Module
  delete_modal id m = record m { modals = remove id m.modals; req_lim = dec_current m.req_lim }

  unfoldable pub render_rules : CallValidator O
  unfolding set type_string type_function
  render_rules = set O 2 (type_function O) (set O 1 (type_string O) (set O 0 (type_string O) []))

  unfoldable pub new_rules : CallValidator O
  unfolding set type_function
  new_rules = set O 1 (type_function O) (set O 0 (type_function O) [])

  unfoldable pub render_effects : Result ℕ (Unit {0}) → List Effect
  render_effects (ok u) = called ∷ []
  render_effects (err e) = called_render_failed ∷ []

  -- "renderModal", with what `RenderModal` of the device returns.
  unfoldable pub render_modal : Result ℕ (Unit {0}) → List O.Value → Module → List Effect
  unfolding argument render_rules fetch_closer render_effects
  render_modal device call m =
      let id = O.text (argument O call 0) in
      let layout = O.text (argument O call 1) in
      elim (validate O render_rules call) [
        | err e ↦ logged e ∷ []
        | ok u ↦ elim (fetch_closer id m) [
          | none ↦ called_missing_modal_id id ∷ []
          | some closer ↦ rendered id layout ∷ render_effects device
        ]
      ]

  -- The answer of the limiter is not looked at.
  unfoldable pub submit : ℕ → Job → Module → Module
  submit n job m =
      let (refused, t) = exec n m.req_lim in
      elim refused [
        | some e ↦ record m { req_lim = t }
        | none ↦ record m { req_lim = t; jobs = insert n job m.jobs }
      ]

  -- "newModalUIID", with what the package uuid gives.
  unfoldable pub new_modal_ui_id : ℕ → Result ℕ Bytes → List O.Value → Module → List Effect × Module
  unfolding argument new_rules submit
  new_modal_ui_id n uuid call m = elim (validate O new_rules call) [
    | err e ↦ (logged e ∷ [], m)
    | ok u ↦ elim uuid [
      | err e ↦ (called_error e ∷ [], m)
      | ok id ↦ (
        [],
        submit n (record { id = id; closer = argument O call 0; callback = argument O call 1 }) m,
      )
    ]
  ]

  -- The end of a job: whether its callback threw. Its beginning is `add_modal`.
  unfoldable pub finish_job : Bool → Bytes → Module → List Effect × Module
  unfolding delete_modal
  finish_job throws id m =
      if throws
      then (called_new id ∷ logged_callback ∷ [], delete_modal id m)
      else (called_new id ∷ [], m)

  -- `CloseModal`, with no other step between its messages.
  unfoldable pub close_modal : Bytes → Module → List Effect × Module
  unfolding fetch_closer delete_modal
  close_modal id m = elim (fetch_closer id m) [
    | none ↦ ([], m)
    | some closer ↦ (closer_called closer ∷ [], delete_modal id m)
  ]

  -- The module, how many jobs the limiter has started that have not yet sent `addModalID`, the jobs
  -- whose callbacks run, the calls of `CloseModal` that have their function, and how often
  -- `deleteModalID` was sent for an id that was not there any more.
  pub record World : Type 0 where
    pub state : Module
    pub launched : ℕ
    pub opening : List Bytes
    pub closing : List Bytes
    pub wasted : ℕ

  abbrev pub waste : Option O.Value → ℕ → ℕ
  waste none n = suc n
  waste (some closer) n = n

  -- A step of one of the goroutines. The worker of the limiter, which alone adds to its counter, does
  -- so after it has seen that the counter is below the limit. A new id is not in use.
  pub data Step : World → World → Type 0 where
    launches :
        (w : World)
        → w.state.req_lim.current < w.state.req_lim.concurrency
        → Step w (record w {
          state = record w.state { req_lim = inc_current w.state.req_lim };
          launched = suc w.launched;
        })
    begins :
        (w : World) (n : ℕ) (id : Bytes) (closer : O.Value)
        → w.launched ≡ suc n
        → fetch_closer id w.state ≡ none
        → Step w (record w {
          state = add_modal id closer w.state;
          launched = n;
          opening = id ∷ w.opening;
        })
    answers :
        (w : World) (id : Bytes) (before after : List Bytes)
        → w.opening ≡ before ++ (id ∷ after)
        → Step w (record w { state = (finish_job false id w.state).1; opening = before ++ after })
    fails :
        (w : World) (id : Bytes) (before after : List Bytes)
        → w.opening ≡ before ++ (id ∷ after)
        → Step w (record w {
          state = (finish_job true id w.state).1;
          opening = before ++ after;
          wasted = waste (fetch_closer id w.state) w.wasted;
        })
    closes :
        (w : World) (id : Bytes) (closer : O.Value)
        → fetch_closer id w.state ≡ some closer
        → Step w (record w { closing = id ∷ w.closing })
    deletes :
        (w : World) (id : Bytes) (before after : List Bytes)
        → w.closing ≡ before ++ (id ∷ after)
        → Step w (record w {
          state = delete_modal id w.state;
          closing = before ++ after;
          wasted = waste (fetch_closer id w.state) w.wasted;
        })

  unfoldable pub start : Module → World
  start m = record { state = m; launched = 0; opening = []; closing = []; wasted = 0 }

  pub data Reach (m : Module) : World → Type 0 where
    at_start : Reach m (start m)
    next : {v w : World} → Reach m v → Step v w → Reach m w
