-- ===== src/Tests/DappCalls.antt =====
-- Tests of what a DApp passes to the functions of the VM, and of its own database.
use panthalassa.Base.{
  ℕ, ◌≡◌, ◌↔◌, refl, Bool, true, false, Option, none, some, List, [], ◌∷◌, arith, All, Bytes,
  replicate, lookup, nat_eq, bytes_beq, if◌then◌else◌, Result, ok, err, Assoc,
}
use panthalassa.Db.Vault.{DbError}
use panthalassa.Tests.Models.{transactions, buckets, nested, Chats}
use panthalassa.Dapp.Validator.{
  Otto, CallValidator, ObjValidator, Validator, type_string, type_function, obj_type_string,
  validate, validate_object,
}
use panthalassa.Dapp.Validator.Accepted.{validate_iff, validate_object_iff, Meets}
use panthalassa.Dapp.Database.{
  ValueJson, Effect, called, called_has, called_value, decreased, put, get, put_call, put_job,
  has_call, get_call,
}
use panthalassa.Dapp.Database.Calls.{get_call-put_job}

-- Some values of the VM: an object with one key, under which it has a text.
data Js : Type 0 where
  undefined callback object : Js
  text : Bytes → Js

unfoldable is_text : Js → Bool
is_text (text b) = true
is_text other = false

unfoldable is_callback : Js → Bool
is_callback callback = true
is_callback other = false

unfoldable is_object : Js → Bool
is_object object = true
is_object other = false

unfoldable text_of : Js → Bytes
text_of (text b) = b
text_of other = []

abbrev js : Otto
js = record {
  Value = Js;
  undefined = undefined;
  is_function = is_callback;
  is_number = λ v. false;
  is_string = is_text;
  is_object = is_object;
  is_boolean = λ v. false;
  text = text_of;
  keys = λ v. (4 ∷ []) ∷ [];
  get = λ v key. ok (text key);
  is_hex_address = λ b. false;
}

abbrev rules : CallValidator js
rules = (1, type_function js) ∷ (0, type_string js) ∷ []

validate_iff_example :
    (validate js rules (text [] ∷ callback ∷ []) ≡ ok tt)
    ↔ ((k : ℕ) (v : Validator js) → lookup k rules ≡ some v → v (text [] ∷ callback ∷ []) k ≡ ok tt)
validate_iff_example = validate_iff js rules (text [] ∷ callback ∷ [])

abbrev object_rules : ObjValidator js
object_rules =
    (4 ∷ [], record { value_type = obj_type_string js; required = true })
    ∷ (5 ∷ [], record { value_type = obj_type_string js; required = false })
    ∷ []

validate_object_iff_example :
    (validate_object js object_rules object ≡ ok tt) ↔ All (Meets js object) object_rules
validate_object_iff_example = validate_object_iff js object_rules object

unfoldable marshal : Js → Result ℕ Bytes
marshal (text b) = ok b
marshal other = err 0

abbrev json : ValueJson js
json = record { marshal = marshal; unmarshal = λ raw. ok (text raw) }

abbrev dapp : Bytes
dapp = replicate 32 1

abbrev values : Option Chats
values = some ((dapp, (9 ∷ [], 5 ∷ []) ∷ []) ∷ [])

get_call-put_job_example :
    (put_job js (transactions DbError) buckets nested json dapp (9 ∷ [], 5 ∷ []) callback none
      ≡ (decreased ∷ called ∷ [], values))
    × (has_call js
          (transactions DbError)
          buckets
          nested
          json
          dapp
          (text (9 ∷ []) ∷ callback ∷ [])
          values
        ≡ called_has true ∷ [])
    × (get_call js
          (transactions DbError)
          buckets
          nested
          json
          dapp
          (text (9 ∷ []) ∷ callback ∷ [])
          values
        ≡ called_value (text (5 ∷ [])) ∷ [])
unfolding put_call validate panthalassa.Base.insert lookup is_text is_callback marshal text_of put
    panthalassa.Tests.Models.run_update panthalassa.Bolt.change panthalassa.Bolt.Within.put_at
    panthalassa.Tests.Models.create_chat panthalassa.Tests.Models.put_pair bytes_beq
    panthalassa.Dapp.Database.key_rules
get_call-put_job_example =
    get_call-put_job (transactions DbError) buckets nested js json dapp (9 ∷ []) (5 ∷ [])
      (text (9 ∷ []) ∷ text (5 ∷ []) ∷ callback ∷ []) (text (9 ∷ []) ∷ callback ∷ []) callback
      (text (5 ∷ [])) none values refl refl refl refl refl
