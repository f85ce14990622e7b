-- ===== src/Bip32.antt =====
-- bip32/bip32.go: the derivation of a hardened child key along a path such as `m/100H/10H`. The
-- package go-bip32 is a parameter; a path is the list of its bytes.
pub mod Hardened
use panthalassa.Base.{
  ℕ, ◌+◌, ◌-◌, ◌*◌, ◌%◌, ◌^◌, Bool, true, false, ◌&&◌, Option, none, some, List, [], ◌∷◌, ◌++◌, leb,
  nat_beq, bytes_beq, if◌then◌else◌, Bytes, Result, ok, err, ◌>>=◌,
}

-- What go-bip32 gives.
pub record HdKeys : Type 1 where
  pub Key : Type 0
  pub master_key : Bytes → Result ℕ Key
  pub new_child_key : Key → ℕ → Result ℕ Key
  pub key_bytes : Key → Bytes

pub data PathError : Type 0 where
  no_root not_hardened not_a_number : PathError
  foreign : ℕ → PathError

-- `strings.Split(path, "/")`, which gives at least one element.
unfoldable pub split_from : Bytes → Bytes → List Bytes
split_from acc [] = acc ∷ []
split_from acc (c ∷ cs) =
    let cut = split_from [] cs in
    let more = split_from (acc ++ (c ∷ [])) cs in if nat_beq c b'/' then acc ∷ cut else more

unfoldable pub split_path : Bytes → List Bytes
unfolding split_from
split_path path = split_from [] path

-- An element without its last byte, if that is `H`.
unfoldable pub trim_h : Bytes → Option Bytes
trim_h [] = none
trim_h (c ∷ []) = if nat_beq c b'H' then some [] else none
trim_h (c ∷ d ∷ cs) =
    let rest = trim_h (d ∷ cs) in elim rest [ none ↦ none | some ds ↦ some (c ∷ ds) ]

unfoldable pub digits_from : ℕ → Bytes → Option ℕ
digits_from n [] = some n
digits_from n (c ∷ cs) =
    let rest = digits_from (n * 10 + (c - 48)) cs in if leb b'0' c && leb c b'9' then rest else none

-- An `int`: its sign and its size.
pub record GoInt : Type 0 where
  pub negative : Bool
  pub size : ℕ

unfoldable pub unsigned : Bool → Bytes → Option GoInt
unfolding digits_from
unsigned negative [] = none
unsigned negative (c ∷ cs) = elim (digits_from 0 (c ∷ cs)) [
  | none ↦ none
  | some n ↦
      if leb n (if negative then 2 ^ 63 else 2 ^ 63 - 1)
      then some (record { negative = negative; size = n })
      else none
]

-- `strconv.Atoi`
unfoldable pub atoi : Bytes → Option GoInt
unfolding unsigned
atoi [] = none
atoi (c ∷ cs) =
    if nat_beq c b'-'
    then unsigned true cs
    else if nat_beq c b'+'
    then unsigned false cs
    else unsigned false (c ∷ cs)

-- `uint32(p)`
unfoldable pub to_uint32 : GoInt → ℕ
to_uint32 p = if p.negative then (2 ^ 32 - p.size % 2 ^ 32) % 2 ^ 32 else p.size % 2 ^ 32

abbrev pub hardened_derivation_start : ℕ
hardened_derivation_start = 2147483648

-- The argument of `NewChildKey`, a sum of two `uint32`.
unfoldable pub child_index : GoInt → ℕ
unfolding to_uint32
child_index p = (hardened_derivation_start + to_uint32 p) % 2 ^ 32

-- The index that one path element stands for.
unfoldable pub element_index : Bytes → Result PathError ℕ
unfolding trim_h atoi child_index
element_index element = elim (trim_h element) [
  | none ↦ err not_hardened
  | some number ↦ elim (atoi number) [ none ↦ err not_a_number | some p ↦ ok (child_index p) ]
]

module _ (K : HdKeys) where
  unfoldable pub derive_child : K.Key → ℕ → Result PathError K.Key
  derive_child key index = elim (K.new_child_key key index) [
    | ok k ↦ ok k
    | err e ↦ err (foreign e)
  ]

  unfoldable pub derive_along : List Bytes → K.Key → Result PathError K.Key
  unfolding element_index derive_child
  derive_along [] key = ok key
  derive_along (element ∷ rest) key = do
    index ← element_index element
    child ← derive_child key index
    derive_along rest child

  unfoldable pub derive_elements : List Bytes → K.Key → Result PathError K.Key
  unfolding derive_along
  derive_elements [] key = err no_root
  derive_elements (root ∷ rest) key =
      if bytes_beq root (b'm' ∷ []) then derive_along rest key else err no_root

  unfoldable pub derive : Bytes → K.Key → Result PathError K.Key
  unfolding split_path derive_elements
  derive path key = derive_elements (split_path path) key
