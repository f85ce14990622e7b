-- ===== src/Chat/Actions.antt =====
-- A step of the chat that may fail: the state is kept, whether or not there is an error.
use panthalassa.Base.{◌≡◌, refl, arith, Bool, true, Result, ok, err, guard}
use panthalassa.Chat.{ChatError}

abbrev pub Action {ℓ} : Type ℓ → Type 0 → Type ℓ
Action S A = S → Result ChatError A × S

module _ {ℓ} {S : Type ℓ} where
  -- Go on with the value, or leave with the error.
  abbrev pub proceed :
      {A B : Type 0} → Result ChatError A × S → (A → Action S B) → Result ChatError B × S
  proceed (ok a, s) next = next a s
  proceed (err e, s) next = (err e, s)

  infixl 5 ◌>>=◌ ◌>>◌
  abbrev pub ◌>>=◌ : {A B : Type 0} → Action S A → (A → Action S B) → Action S B
  (m >>= next) s = proceed (m s) next

  abbrev pub ◌>>◌ : {B : Type 0} → Action S (Unit {0}) → Action S B → Action S B
  (m >> next) s = proceed (m s) (λ _. next)

  -- A result that does not touch the state.
  abbrev pub lift : {A : Type 0} → Result ChatError A → Action S A
  lift r s = (r, s)

  abbrev pub check : Bool → ChatError → Action S (Unit {0})
  check test e s = (guard test e, s)

  -- A sequence that succeeds has steps that succeed.
  pub proceed-eq-ok :
      {A B : Type 0} (r : Result ChatError A × S) (next : A → Action S B) {b : B} {t : S}
      → proceed r next ≡ (ok b, t)
      → (a : A) × (u : S) × (r ≡ (ok a, u)) × (next a u ≡ (ok b, t))
  proceed-eq-ok (ok a, u) next e = (a, u, refl, e)
  proceed-eq-ok (err x, u) next e = absurd (ground arith)

  -- A check that passes.
  pub check-eq-ok :
      (test : Bool) (e : ChatError) (s t : S) (u : Unit)
      → check test e s ≡ (ok u, t)
      → (test ≡ true) × (t ≡ s)
  check-eq-ok test e s t u h = ground arith
