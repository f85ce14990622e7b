-- ===== src/Dyncall.antt =====
-- dyncall: calls by name. A goroutine owns the modules; `add` and `get` are its messages. A payload is
-- a value of the type `Payload`.
pub mod Registered
use panthalassa.Base.{
  ℕ, Option, none, some, List, [], ◌∷◌, Bytes, Assoc, lookup, insert, bytes_eq, Result, ok, err,
  ◌>>◌, map_err,
}

pub data CallError : Type 0 where
  already_registered no_such_module : Bytes → CallError
  refused : ℕ → CallError  -- an error of the module

module _ (Payload : Type 0) where
  pub record CallModule : Type 0 where
    pub call_id : Bytes
    pub validate : Payload → Result ℕ (Unit {0})
    pub handle : Payload → Result ℕ Payload

  abbrev pub Registry : Type 0
  Registry = Assoc Bytes CallModule

  unfoldable pub add : CallModule → Registry → Registry
  add m r = insert m.call_id m r

  unfoldable pub get : Bytes → Registry → Option CallModule
  get id r = lookup id r

  -- `Register`, with no other message between its two.
  unfoldable pub register : CallModule → Registry → Result CallError (Unit {0}) × Registry
  unfolding add get
  register m r = elim (get m.call_id r) [
    | some other ↦ (err (already_registered m.call_id), r)
    | none ↦ (ok tt, add m r)
  ]

  -- What `Call` does with the module that it was given.
  unfoldable pub answer : Option CallModule → Bytes → Payload → Result CallError Payload
  answer none id payload = err (no_such_module id)
  answer (some m) id payload =
      map_err refused (m.validate payload) >> map_err refused (m.handle payload)

  unfoldable pub call : Bytes → Payload → Registry → Result CallError Payload
  unfolding get answer
  call id payload r = answer (get id r) id payload

  unfoldable pub register_all : List CallModule → Registry → Registry
  unfolding register
  register_all [] r = r
  register_all (m ∷ ms) r = register_all ms (register m r).1
