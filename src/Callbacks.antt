-- ===== src/Callbacks.antt =====
-- dapp/module/callbacks/module.go: one goroutine owns the functions that a DApp registers, the count
-- of their ids, and the callbacks that are waited for. Each message to it is an operation. A function
-- of the VM is a value of the type `Fn`, a callback channel is a number. The limiter is only used by
-- this goroutine, so its calls are those of Limits.Count one after the other.
pub mod Registry
use panthalassa.Base.{
  ℕ, ◌+◌, Bool, true, false, Option, none, some, List, [], ◌∷◌, map, if◌then◌else◌, Assoc, lookup,
  insert, remove, nat_eq, word, Result, ok, err,
}
use panthalassa.Limits.Count.{Count, CountError, new_count, increase, decrease}

pub data CallbackError : Type 0 where
  already_registered function_missing closed_application : CallbackError
  limit : CountError → CallbackError

module _ (Fn : Type 0) where
  pub record Module : Type 0 where
    pub req_lim : Count
    pub id_count : ℕ
    pub functions : Assoc ℕ Fn
    pub cb_chans : Assoc ℕ Bool
    pub sent : List (ℕ × CallbackError)
    pub closed : Bool

  unfoldable pub new_module : Module
  new_module = record {
    req_lim = new_count 10000;
    id_count = 0;
    functions = [];
    cb_chans = [];
    sent = [];
    closed = false;
  }

  -- The end of `addFunctionChan`, with the answer of the limiter.
  unfoldable pub register_checked :
      Fn → Option CountError × Count → Module → Result CallbackError ℕ × Module
  register_checked fn (some e, c) m = (err (limit e), record m { req_lim = c })
  register_checked fn (none, c) m =
      let id = word (m.id_count + 1) in
      (ok id, record m { req_lim = c; id_count = id; functions = insert id fn m.functions })

  -- `addFunctionChan`
  unfoldable pub add_function : Fn → Module → Result CallbackError ℕ × Module
  unfolding register_checked
  add_function fn m = elim (lookup (word (m.id_count + 1)) m.functions) [
    | some other ↦ (err already_registered, m)
    | none ↦ register_checked fn (increase m.req_lim) m
  ]

  -- `deleteFunctionChan`
  unfoldable pub delete_function : ℕ → Module → Module
  delete_function id m = elim (lookup id m.functions) [
    | none ↦ m
    | some fn ↦ record m { req_lim = decrease m.req_lim; functions = remove id m.functions }
  ]

  -- `fetchFunctionChan`
  unfoldable pub fetch_function : ℕ → Module → Option Fn
  fetch_function id m = lookup id m.functions

  -- `addCBChan` and `rmCBChan`
  unfoldable pub add_callback : ℕ → Module → Module
  add_callback cb m = record m { cb_chans = insert cb true m.cb_chans }

  unfoldable pub remove_callback : ℕ → Module → Module
  remove_callback cb m = record m { cb_chans = remove cb m.cb_chans }

  -- `closer`: each waiting callback is sent an error and the goroutine ends.
  unfoldable pub close : Module → Module
  close m = record m { sent = map (λ e. (e.0, closed_application)) m.cb_chans; closed = true }

  pub data Request : Type 0 where
    add : Fn → Request
    delete fetch add_cb remove_cb : ℕ → Request
    shut : Request

  -- One round of the goroutine.
  unfoldable pub serve : Request → Module → Module
  unfolding add_function delete_function add_callback remove_callback close
  serve (add fn) m = if m.closed then m else (add_function fn m).1
  serve (delete id) m = if m.closed then m else delete_function id m
  serve (fetch id) m = m
  serve (add_cb cb) m = if m.closed then m else add_callback cb m
  serve (remove_cb cb) m = if m.closed then m else remove_callback cb m
  serve shut m = if m.closed then m else close m

  unfoldable pub serve_all : List Request → Module → Module
  serve_all [] m = m
  serve_all (r ∷ rs) m = serve_all rs (serve r m)
