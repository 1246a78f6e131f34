-- ===== src/Json.antt =====
-- JSON as Python decodes it: `dict.get`, `isinstance`, truthiness and `int(...)`.
-- Numbers are integers, the only ones that the code under verification reads.
use veri_proof_hackerton.Prelude.{
  String, Bool, true, false, not, Option, none, some, List, [], ◌∷◌, ◌==◌, if◌then◌else◌, ℤ, pos,
  eqb_ℤ,
}

mutual
  pub data Json : Type 0 where
    null : Json
    bool : Bool → Json
    number : ℤ → Json
    text : String → Json
    array : Items → Json
    object : Fields → Json

  pub data Items : Type 0 where
    nil : Items
    item : Json → Items → Items

  -- A `dict`, in its order.
  pub data Fields : Type 0 where
    end : Fields
    field : String → Json → Fields → Fields

-- `key in d` and `d[key]`
abbrev pub lookup : String → Fields → Option Json
lookup key end = none
lookup key (field k value rest) = if k == key then some value else lookup key rest

-- `d.get(key)`
abbrev pub get : String → Fields → Json
get key fields = elim (lookup key fields) [ none ↦ null | some value ↦ value ]

abbrev pub as_object : Json → Option Fields
as_object (object fields) = some fields
as_object null = none
as_object (bool b) = none
as_object (number n) = none
as_object (text t) = none
as_object (array xs) = none

abbrev pub as_text : Json → Option String
as_text (text t) = some t
as_text null = none
as_text (bool b) = none
as_text (number n) = none
as_text (array xs) = none
as_text (object fields) = none

abbrev to_list : Items → List Json
to_list nil = []
to_list (item x rest) = x ∷ to_list rest

abbrev pub as_list : Json → Option (List Json)
as_list (array xs) = some (to_list xs)
as_list null = none
as_list (bool b) = none
as_list (number n) = none
as_list (text t) = none
as_list (object fields) = none

-- `[item for item in xs if isinstance(item, dict)]`
abbrev pub only_objects : List Json → List Fields
only_objects [] = []
only_objects (x ∷ xs) = elim (as_object x) [
  | none ↦ only_objects xs
  | some fields ↦ fields ∷ only_objects xs
]

-- `value == text` for a text
abbrev pub is_text : String → Json → Bool
is_text t value = elim (as_text value) [ none ↦ false | some s ↦ s == t ]

abbrev pub is_null : Json → Bool
is_null null = true
is_null (bool b) = false
is_null (number n) = false
is_null (text t) = false
is_null (array xs) = false
is_null (object fields) = false

abbrev pub hashable : Json → Bool
hashable null = true
hashable (bool b) = true
hashable (number n) = true
hashable (text t) = true
hashable (array xs) = false
hashable (object fields) = false

-- `bool(value)`
abbrev pub truthy : Json → Bool
truthy null = false
truthy (bool b) = b
truthy (number n) = not (eqb_ℤ n (pos 0))
truthy (text t) = not (t == "")
truthy (array nil) = false
truthy (array (item x rest)) = true
truthy (object end) = false
truthy (object (field k value rest)) = true

-- `int(value)`, with Python's reading of a text as a parameter; `none` is a TypeError or ValueError.
abbrev pub to_int : (String → Option ℤ) → Json → Option ℤ
to_int int_of_text null = none
to_int int_of_text (bool true) = some (pos 1)
to_int int_of_text (bool false) = some (pos 0)
to_int int_of_text (number n) = some n
to_int int_of_text (text t) = int_of_text t
to_int int_of_text (array xs) = none
to_int int_of_text (object fields) = none
