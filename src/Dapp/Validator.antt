-- ===== src/Dapp/Validator.antt =====
-- dapp/validator: the checks of what a DApp passes to a function of the VM, by position and by the keys
-- of an object. The values of the VM are those of the package otto, a parameter, as is the test for an
-- Ethereum address. The locks are left out: each validator is used by one goroutine.
pub mod Accepted
use panthalassa.Base.{
  ℕ, zero, suc, Bool, ◌&&◌, none, some, List, [], ◌∷◌, map, Bytes, Assoc, lookup, insert, nat_eq,
  bytes_eq, contains, ltb, if◌then◌else◌, Result, ok, err, ◌>>=◌, ◌>>◌, guard, map_err,
}

pub record Otto : Type 1 where
  pub Value : Type 0
  pub undefined : Value
  pub is_function : Value → Bool
  pub is_number : Value → Bool
  pub is_string : Value → Bool
  pub is_object : Value → Bool
  pub is_boolean : Value → Bool
  pub text : Value → Bytes
  pub keys : Value → List Bytes
  pub get : Value → Bytes → Result ℕ Value
  pub is_hex_address : Bytes → Bool

pub data Expected : Type 0 where
  a_function a_number a_string an_object an_address a_bool : Expected

pub data ValidationError : Type 0 where
  expected_parameter : ℕ → Expected → ValidationError
  expected_value : Bytes → Expected → ValidationError
  no_validator : ℕ → ValidationError
  missing_key : Bytes → ValidationError
  internal_error : ℕ → ValidationError

-- `sort.Ints`
unfoldable pub insert_number : ℕ → List ℕ → List ℕ
insert_number n [] = n ∷ []
insert_number n (m ∷ ms) = let rest = insert_number n ms in if ltb m n then m ∷ rest else n ∷ m ∷ ms

unfoldable pub sort_numbers : List ℕ → List ℕ
unfolding insert_number
sort_numbers [] = []
sort_numbers (n ∷ ns) = insert_number n (sort_numbers ns)

module _ (O : Otto) where
  -- An argument that was not passed is undefined.
  unfoldable pub argument : List O.Value → ℕ → O.Value
  argument [] i = O.undefined
  argument (v ∷ vs) zero = v
  argument (v ∷ vs) (suc i) = argument vs i

  abbrev pub Validator : Type 0
  Validator = List O.Value → ℕ → Result ValidationError (Unit {0})

  unfoldable pub type_function : Validator
  unfolding argument
  type_function call i = guard (O.is_function (argument call i)) (expected_parameter i a_function)

  unfoldable pub type_number : Validator
  unfolding argument
  type_number call i = guard (O.is_number (argument call i)) (expected_parameter i a_number)

  unfoldable pub type_string : Validator
  unfolding argument
  type_string call i = guard (O.is_string (argument call i)) (expected_parameter i a_string)

  unfoldable pub type_object : Validator
  unfolding argument
  type_object call i = guard (O.is_object (argument call i)) (expected_parameter i an_object)

  abbrev pub CallValidator : Type 0
  CallValidator = Assoc ℕ Validator

  unfoldable pub set : ℕ → Validator → CallValidator → CallValidator
  set i v rules = insert i v rules

  unfoldable pub validate_keys :
      CallValidator → List O.Value → List ℕ → Result ValidationError (Unit {0})
  validate_keys rules call [] = ok tt
  validate_keys rules call (k ∷ ks) =
      let rest = validate_keys rules call ks in
      elim (lookup k rules) [ none ↦ err (no_validator k) | some v ↦ v call k >> rest ]

  unfoldable pub positions : CallValidator → List ℕ
  positions rules = map (λ r. r.0) rules

  -- `CallValidator.Validate`
  unfoldable pub validate : CallValidator → List O.Value → Result ValidationError (Unit {0})
  unfolding validate_keys sort_numbers positions
  validate rules call = validate_keys rules call (sort_numbers (positions rules))

  abbrev pub ObjValueValidator : Type 0
  ObjValueValidator = O.Value → Bytes → Result ValidationError (Unit {0})

  unfoldable pub obj_type_address : ObjValueValidator
  obj_type_address v key =
      guard (O.is_string v && O.is_hex_address (O.text v)) (expected_value key an_address)

  unfoldable pub obj_type_string : ObjValueValidator
  obj_type_string v key = guard (O.is_string v) (expected_value key a_string)

  unfoldable pub obj_type_object : ObjValueValidator
  obj_type_object v key = guard (O.is_object v) (expected_value key an_object)

  unfoldable pub obj_type_bool : ObjValueValidator
  obj_type_bool v key = guard (O.is_boolean v) (expected_value key a_bool)

  pub record ObjRule : Type 0 where
    pub value_type : ObjValueValidator
    pub required : Bool

  abbrev pub ObjValidator : Type 0
  ObjValidator = Assoc Bytes ObjRule

  unfoldable pub set_key : Bytes → ObjValueValidator → Bool → ObjValidator → ObjValidator
  set_key key v required rules = insert key (record { value_type = v; required = required }) rules

  -- One round of `ObjValidator.Validate`.
  unfoldable pub check_key : O.Value → Bytes → ObjRule → Result ValidationError (Unit {0})
  check_key obj key rule =
      let found = map_err internal_error (O.get obj key) >>= λ v. rule.value_type v key in
      if contains key (O.keys obj)
      then found
      else if rule.required
      then err (missing_key key)
      else ok tt

  -- The rules in the order in which the map gives them.
  unfoldable pub validate_object : ObjValidator → O.Value → Result ValidationError (Unit {0})
  unfolding check_key
  validate_object [] obj = ok tt
  validate_object ((key, rule) ∷ rules) obj = check_key obj key rule >> validate_object rules obj
