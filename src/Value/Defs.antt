-- ===== src/Value/Defs.antt =====
-- The values of JSON documents as Python holds them. A dict is its fields in insertion order.

use netdeploy.Base.{
  ℕ, zero, suc, String, Bool, true, false, ◌&&◌, ◌||◌, List, [], ◌∷◌, Option, none, some, ◌==◌,
  str_eq, if◌then◌else◌, ℤ, pos, negsuc, eqb_ℤ,
}
use netdeploy.Text.{Text, codes, text_eq}

mutual
  pub data Value : Type 0 where
    null : Value
    bool : Bool → Value
    int : ℤ → Value
    str : Text → Value
    arr : Items → Value
    obj : Fields → Value

  pub data Fields : Type 0 where
    end : Fields
    field : String → Value → Fields → Fields

  pub data Items : Type 0 where
    nil : Items
    cons : Value → Items → Items

-- `d.get(k)` of a dict; `none` is a missing key
unfoldable pub lookup : String → Fields → Option Value
lookup k end = none
lookup k (field j v fs) = let rest = lookup k fs in if str_eq j k then some v else rest

-- `k in d`
unfoldable pub has_key : String → Fields → Bool
has_key k end = false
has_key k (field j v fs) = str_eq j k || has_key k fs

unfoldable pub items_list : Items → List Value
items_list nil = []
items_list (cons v vs) = v ∷ items_list vs

-- Iterating over a dict gives its keys.
unfoldable pub keys_list : Fields → List Value
keys_list end = []
keys_list (field k v fs) = str (codes k) ∷ keys_list fs

unfoldable pub chars_list : Text → List Value
chars_list [] = []
chars_list (c ∷ t) = str (c ∷ []) ∷ chars_list t

-- A bool is an int in Python.
unfoldable pub as_int : Value → Option ℤ
as_int (bool true) = some (pos 1)
as_int (bool false) = some (pos 0)
as_int (int n) = some n
as_int _ = none

-- `bool(v)`
unfoldable pub truthy : Value → Bool
truthy null = false
truthy (bool b) = b
truthy (int (pos zero)) = false
truthy (int (pos (suc n))) = true
truthy (int (negsuc n)) = true
truthy (str []) = false
truthy (str (c ∷ t)) = true
truthy (arr nil) = false
truthy (arr (cons v vs)) = true
truthy (obj end) = false
truthy (obj (field k v fs)) = true

unfoldable pub hashable : Value → Bool
hashable (arr vs) = false
hashable (obj fs) = false
hashable _ = true

unfoldable pub type_name : Value → String
type_name null = "NoneType"
type_name (bool b) = "bool"
type_name (int n) = "int"
type_name (str t) = "str"
type_name (arr vs) = "list"
type_name (obj fs) = "dict"

count_fields : Fields → ℕ
count_fields end = 0
count_fields (field k v fs) = suc (count_fields fs)

-- `==` of two numbers, where `True == 1`
same_int : Option ℤ → Option ℤ → Bool
same_int (some a) (some b) = eqb_ℤ a b
same_int _ _ = false

-- `a == b`: dicts are equal if they have as many keys and each key of one has an equal value in
-- the other.
unfoldable mutual
  unfolding same_int as_int count_fields lookup

  pub value_eq : Value → Value → Bool
  value_eq null w = elim w [ null ↦ true | _ ↦ false ]
  value_eq (bool b) w = same_int (as_int (bool b)) (as_int w)
  value_eq (int n) w = same_int (some n) (as_int w)
  value_eq (str s) w = elim w [ str t ↦ text_eq s t | _ ↦ false ]
  value_eq (arr vs) w = elim w [ arr ws ↦ items_eq vs ws | _ ↦ false ]
  value_eq (obj fs) w = elim w [
    | obj gs ↦ (count_fields fs == count_fields gs) && fields_eq fs gs
    | _ ↦ false
  ]

  pub items_eq : Items → Items → Bool
  items_eq nil ws = elim ws [ nil ↦ true | cons _ _ ↦ false ]
  items_eq (cons v vs) ws = elim ws [ nil ↦ false | cons w rest ↦ value_eq v w && items_eq vs rest ]

  pub fields_eq : Fields → Fields → Bool
  fields_eq end gs = true
  fields_eq (field k v fs) gs =
      elim (lookup k gs) [ none ↦ false | some w ↦ value_eq v w ] && fields_eq fs gs
