-- ===== src/Dapp/Validator/Accepted.antt =====
-- What the validators accept.
use panthalassa.Base.{
  ℕ, ◌≡◌, ◌≢◌, ◌⊎◌, ◌↔◌, refl, true, false, none, some, List, [], ◌∷◌, arith, All, Bytes, lookup,
  nat_eq, nat_beq, nat_beq_iff, bytes_eq, contains, ltb, ok, Result-cases, Bool-cases, Option-cases,
  inl, inr,
}
use panthalassa.Dapp.Validator.{
  Otto, insert_number, sort_numbers, CallValidator, Validator, validate_keys, positions, validate,
  ObjRule, ObjValidator, check_key, validate_object,
}

All-insert_number :
    (P : ℕ → Type 0) (n : ℕ) (ns : List ℕ) → (P n × All P ns) ↔ All P (insert_number n ns)
unfolding insert_number
All-insert_number P n [] = (λ h. h, λ h. h)
All-insert_number P n (m ∷ ms) =
    let (into, out) = All-insert_number P n ms in
    elim (Bool-cases (ltb m n)) [
      | inr e ↦ rw e (λ h. h, λ h. h)
      | inl e ↦ rw e (λ h. (h.1.0, into (h.0, h.1.1)), λ h. ((out h.1).0, (h.0, (out h.1).1)))
    ]

All-sort_numbers : (P : ℕ → Type 0) (ns : List ℕ) → All P ns ↔ All P (sort_numbers ns)
unfolding sort_numbers
All-sort_numbers P [] = (λ h. h, λ h. h)
All-sort_numbers P (n ∷ ns) =
    let (to, from) = All-sort_numbers P ns in
    let (into, out) = All-insert_number P n (sort_numbers ns) in
    (λ h. into (h.0, to h.1), λ h. ((out h).0, from (out h).1))

module _ (O : Otto) where
  -- The rule of a position holds.
  abbrev Holds : CallValidator O → List O.Value → ℕ → Type 0
  Holds rules call k = (v : Validator O) × (lookup k rules ≡ some v) × (v call k ≡ ok tt)

  validate_keys_lem :
      (rules : CallValidator O) (call : List O.Value) (ks : List ℕ)
      → (validate_keys O rules call ks ≡ ok tt) ↔ All (Holds rules call) ks
  unfolding validate_keys
  validate_keys_lem rules call [] = (λ h. tt, λ h. refl)
  validate_keys_lem rules call (k ∷ ks) =
      let (to, from) = validate_keys_lem rules call ks in
      elim (Option-cases (lookup k rules)) [
        | inl e ↦ (λ h. absurd (ground arith), λ h. let (v, f, g) = h.0 in absurd (ground arith))
        | inr (v, e) ↦ (
          λ h. elim (Result-cases (v call k)) [
            | inr (x, f) ↦ absurd (ground arith)
            | inl (u, f) ↦ ((v, e, f), to (ground arith))
          ],
          λ h. let (w, f, g) = h.0 in let rest = from h.1 in ground arith,
        )
      ]

  All-positions :
      (P : ℕ → Type 0) (rules : CallValidator O) (k : ℕ) (v : Validator O)
      → All P (positions O rules)
      → lookup k rules ≡ some v
      → P k
  unfolding positions lookup
  All-positions P [] k v all h = absurd (ground arith)
  All-positions P ((j, w) ∷ rules) k v all h = elim (Bool-cases (nat_beq j k)) [
    | inl e ↦ let same = (nat_beq_iff j k).0 e in rw (← same) all.0
    | inr e ↦ All-positions P rules k v all.1 (ground arith)
  ]

  positions-Holds :
      (rules : CallValidator O) (call : List O.Value)
      → ((k : ℕ) (v : Validator O) → lookup k rules ≡ some v → v call k ≡ ok tt)
      → (rest : CallValidator O) → ((k : ℕ) → lookup k rest ≢ none → lookup k rules ≢ none)
      → All (Holds rules call) (positions O rest)
  unfolding positions lookup
  positions-Holds rules call h [] inside = tt
  positions-Holds rules call h ((j, w) ∷ rest) inside = (
    elim (Option-cases (lookup j rules)) [
      | inr (v, e) ↦ (v, e, h j v e)
      | inl e ↦ absurd (inside j (ground (arith, nat_beq_iff j j)) e)
    ],
    positions-Holds rules call h rest (λ k f. inside k (ground arith)),
  )

  -- A call passes the validation without an error if and only if it meets the rule of every
  -- position that has one.
  pub validate_iff :
      (rules : CallValidator O) (call : List O.Value)
      → (validate O rules call ≡ ok tt)
        ↔ ((k : ℕ) (v : Validator O) → lookup k rules ≡ some v → v call k ≡ ok tt)
  unfolding validate
  validate_iff rules call =
      let (to, from) = validate_keys_lem rules call (sort_numbers (positions O rules)) in
      let (sorted, unsorted) = All-sort_numbers (Holds rules call) (positions O rules) in
      (
        λ h k v e.
            let (w, f, g) = All-positions (Holds rules call) rules k v (unsorted (to h)) e in
            ground arith,
        λ h. from (sorted (positions-Holds rules call h rules (λ k f. f))),
      )

  -- What a rule asks of an object: its value is accepted, where the object has the key; otherwise the
  -- rule does not require it.
  abbrev pub Meets : O.Value → Bytes × ObjRule O → Type 0
  Meets obj r =
      ((contains r.0 (O.keys obj) ≡ true)
        × (v : O.Value) × (O.get obj r.0 ≡ ok v)
        × (r.1.value_type v r.0 ≡ ok tt))
      ⊎ ((contains r.0 (O.keys obj) ≡ false) × (r.1.required ≡ false))

  check_key_lem :
      (obj : O.Value) (key : Bytes) (rule : ObjRule O)
      → (check_key O obj key rule ≡ ok tt) ↔ Meets obj (key, rule)
  unfolding check_key
  check_key_lem obj key rule = elim (Bool-cases (contains key (O.keys obj))) [
    | inr e ↦ (
      λ h. inr (e, ground arith),
      λ m. elim m [ inl a ↦ absurd (ground arith) | inr a ↦ ground arith ],
    )
    | inl e ↦ elim (Result-cases (O.get obj key)) [
      | inr (x, g) ↦ (
        λ h. absurd (ground arith),
        λ m. elim m [ inl (a, v, b, c) ↦ absurd (ground arith) | inr a ↦ absurd (ground arith) ],
      )
      | inl (v, g) ↦ (
        λ h. inl (e, v, g, ground arith),
        λ m. elim m [ inl (a, w, b, c) ↦ ground arith | inr a ↦ absurd (ground arith) ],
      )
    ]
  ]

  -- An object passes the validation without an error if and only if it meets every rule: the
  -- value of a key that it has can be read and is accepted, and a key that it does not have is
  -- not required.
  pub validate_object_iff :
      (rules : ObjValidator O) (obj : O.Value)
      → (validate_object O rules obj ≡ ok tt) ↔ All (Meets obj) rules
  unfolding validate_object
  validate_object_iff [] obj = (λ h. tt, λ h. refl)
  validate_object_iff ((key, rule) ∷ rules) obj =
      let (to, from) = validate_object_iff rules obj in
      let (check, meet) = check_key_lem obj key rule in
      elim (Result-cases (check_key O obj key rule)) [
        | inr (x, e) ↦ (λ h. absurd (ground arith), λ h. let c = meet h.0 in absurd (ground arith))
        | inl (u, e) ↦ (λ h. (check e, to (ground arith)), λ h. let rest = from h.1 in ground arith)
      ]
