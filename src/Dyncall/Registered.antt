-- ===== src/Dyncall/Registered.antt =====
-- Which module a call reaches.
use panthalassa.Base.{
  ◌≡◌, Option, none, some, List, [], ◌∷◌, arith, Bytes, bytes_beq, bytes_beq_iff, bytes_eq, lookup,
  lookup-insert, if◌then◌else◌, ap, Option-cases, Bool-cases, inl, inr,
}
use panthalassa.Dyncall.{CallModule, Registry, add, answer, get, register, call, register_all}

module _ (Payload : Type 0) where
  -- The first module of the list with this id.
  unfoldable pub first : Bytes → List (CallModule Payload) → Option (CallModule Payload)
  first id [] = none
  first id (m ∷ ms) = if bytes_beq m.call_id id then some m else first id ms

  abbrev or_first :
      Option (CallModule Payload) → Bytes → List (CallModule Payload) → Option (CallModule Payload)
  or_first none id ms = first id ms
  or_first (some m) id ms = some m

  get-register_all :
      (id : Bytes) (ms : List (CallModule Payload)) (r : Registry Payload)
      → get Payload id (register_all Payload ms r) ≡ or_first (get Payload id r) id ms
  unfolding get first register_all register add
  get-register_all id [] r = elim (Option-cases (lookup id r)) [
    | inl e ↦ ground arith
    | inr (m, e) ↦ ground arith
  ]
  get-register_all id (m ∷ ms) r =
      let next = get-register_all id ms (register Payload m r).1 in
      let at = lookup-insert m.call_id id m r in
      elim (Option-cases (lookup m.call_id r)) [
        | inr (other, e) ↦ elim (Bool-cases (bytes_beq m.call_id id)) [
          | inl same ↦ let is_id = (bytes_beq_iff m.call_id id).0 same in ground (arith, next)
          | inr differs ↦ ground (arith, next)
        ]
        | inl e ↦ elim (Bool-cases (bytes_beq m.call_id id)) [
          | inl same ↦ let is_id = (bytes_beq_iff m.call_id id).0 same in ground (arith, next, at)
          | inr differs ↦ ground (arith, next, at)
        ]
      ]

  -- After any modules were registered one after the other in a new registry, a call reaches the
  -- first one of them with its id, whatever was registered under that id later, and is an error
  -- where there is none.
  pub call-register_all :
      (ms : List (CallModule Payload)) (id : Bytes) (payload : Payload)
      → call Payload id payload (register_all Payload ms [])
        ≡ answer Payload (first id ms) id payload
  unfolding call get lookup
  call-register_all ms id payload =
      ap (λ o. answer Payload o id payload) (get-register_all id ms [])
