-- ===== src/Py.antt =====
-- Python expressions that may raise: a result or the exception, and the operations on dynamic
-- values whose outcome depends on the type of the value.
use netdeploy.Base.{
  ℕ, zero, suc, ◌≡◌, refl, String, Bool, true, false, ◌&&◌, ◌||◌, List, [], ◌∷◌, Option, none, some,
  ◌++◌, ltb, ◌==◌, if◌then◌else◌, ℤ, ltb_ℤ, scale,
}
use mathlib.Core.Path.{subst}
use netdeploy.Text.{Text, codes}
use netdeploy.Value.{
  Value, int, arr, obj, str, Items, nil, cons, lookup, items_list, keys_list, chars_list, as_int,
  hashable, type_name, value_eq,
}

pub data Exn : Type 0 where
  attribute_error : String → String → Exn
  not_iterable : String → Exn
  unhashable : String → Exn
  unordered : String → String → Exn
  no_product : String → Exn
  not_text : String → Exn
  value_error : Text → Exn
  -- an error of `ipaddress`; its text is modelled as the text of the value it rejects
  address_error : Text → Exn
  runtime_error : Text → Exn
  -- an exception of a library, with its text
  foreign : Text → Exn

-- `str(e)`
unfoldable pub exn_text : Exn → Text
exn_text (attribute_error type attr) =
    codes "'" ++ (codes type ++ (codes "' object has no attribute '" ++ (codes attr ++ codes "'")))
exn_text (not_iterable type) = codes "'" ++ (codes type ++ codes "' object is not iterable")
exn_text (unhashable type) = codes "unhashable type: '" ++ (codes type ++ codes "'")
exn_text (unordered a b) =
    codes "'<' not supported between instances of '"
    ++ (codes a ++ (codes "' and '" ++ (codes b ++ codes "'")))
exn_text (no_product type) =
    codes "unsupported operand type(s) for *: '" ++ (codes type ++ codes "' and 'int'")
exn_text (not_text type) = codes "'in <string>' requires string as left operand, not " ++ codes type
exn_text (value_error t) = t
exn_text (address_error t) = t
exn_text (runtime_error t) = t
exn_text (foreign t) = t

pub data Py {ℓ} (A : Type ℓ) : Type ℓ where
  ok : A → Py A
  raised : Exn → Py A

infixl 5 ◌>>=◌ ◌>>◌
unfoldable pub ◌>>=◌ {ℓ κ} : {A : Type ℓ} {B : Type κ} → Py A → (A → Py B) → Py B
ok a >>= f = f a
raised e >>= f = raised e

abbrev pub ◌>>◌ {ℓ κ} : {A : Type ℓ} {B : Type κ} → Py A → Py B → Py B
m >> k = m >>= λ _. k

-- Inversion of a successful bind.
pub >>=-eq-ok {ℓ κ} :
    {A : Type ℓ} {B : Type κ} (m : Py A) (f : A → Py B) {b : B}
    → (m >>= f) ≡ ok b
    → (a : A) × (m ≡ ok a) × (f a ≡ ok b)
unfolding ◌>>=◌
>>=-eq-ok (ok a) f h = (a, refl, h)
>>=-eq-ok (raised e) f h = cc

-- `v.get(k, default)`
abbrev or_default : Option Value → Value → Value
or_default none d = d
or_default (some v) d = v

unfoldable pub get : Value → String → Value → Py Value
get (obj fs) k d = ok (or_default (lookup k fs) d)
get v k d = raised (attribute_error (type_name v) "get")

-- the left operand of `in` for a text
unfoldable pub need_text : Value → Py Text
need_text (str t) = ok t
need_text v = raised (not_text (type_name v))

-- `for x in v`
unfoldable pub iterate : Value → Py (List Value)
iterate (arr vs) = ok (items_list vs)
iterate (obj fs) = ok (keys_list fs)
iterate (str t) = ok (chars_list t)
iterate v = raised (not_iterable (type_name v))

-- what a set and a dict ask of a key
unfoldable pub need_hash : Value → Py (Unit {0})
need_hash v = if hashable v then ok tt else raised (unhashable (type_name v))

-- `t * n` of a sequence
repeat {ℓ} : {A : Type ℓ} → ℕ → List A → List A
repeat zero t = []
repeat (suc n) t = t ++ repeat n t

append_items : Items → Items → Items
append_items nil ws = ws
append_items (cons v vs) ws = cons v (append_items vs ws)

repeat_items : ℕ → Items → Items
unfolding append_items
repeat_items zero vs = nil
repeat_items (suc n) vs = append_items vs (repeat_items n vs)

scaled : Value → ℕ → Option ℤ → Py Value
scaled v n (some a) = ok (int (scale n a))
scaled v n none = raised (no_product (type_name v))

-- `v * n` for a numeral `n`
unfoldable pub times : Value → ℕ → Py Value
unfolding repeat repeat_items scaled
times (str t) n = ok (str (repeat n t))
times (arr vs) n = ok (arr (repeat_items n vs))
times v n = scaled v n (as_int v)

text_less : Text → Text → Bool
text_less [] [] = false
text_less [] (d ∷ t) = true
text_less (c ∷ s) [] = false
text_less (c ∷ s) (d ∷ t) = ltb c d || ((c == d) && text_less s t)

-- `a < b` of two numbers
ordered : Value → Value → Option ℤ → Option ℤ → Py Bool
ordered a b (some m) (some n) = ok (ltb_ℤ m n)
ordered a b _ _ = raised (unordered (type_name a) (type_name b))

-- `a < b`: numbers, texts and lists have an order
unfoldable mutual
  unfolding ordered text_less

  pub less : Value → Value → Py Bool
  less (str s) w = elim w [
    | str t ↦ ok (text_less s t)
    | other ↦ raised (unordered "str" (type_name other))
  ]
  less (arr vs) w = elim w [
    | arr ws ↦ less_items vs ws
    | other ↦ raised (unordered "list" (type_name other))
  ]
  less v w = ordered v w (as_int v) (as_int w)

  pub less_items : Items → Items → Py Bool
  less_items nil ws = elim ws [ nil ↦ ok false | cons _ _ ↦ ok true ]
  less_items (cons v vs) ws = elim ws [
    | nil ↦ ok false
    | cons w rest ↦ if value_eq v w then less_items vs rest else less v w
  ]

-- What holds of the result if nothing is raised.
pub record Ensures {ℓ κ} {A : Type ℓ} (P : A → Type κ) (m : Py A) : Type (ℓ ⊔ κ) where
  pub at : (a : A) → m ≡ ok a → P a

pub Ensures-ok {ℓ κ} : {A : Type ℓ} {P : A → Type κ} (a : A) → P a → Ensures P (ok a)
Ensures-ok {P} a h = record { at = λ b e. subst P (cc) h }

pub Ensures-bind {ℓ κ μ ν} :
    {A : Type ℓ} {B : Type κ} {P : A → Type μ} {Q : B → Type ν} (m : Py A) (f : A → Py B)
    → Ensures P m
    → ((a : A) → P a → Ensures Q (f a))
    → Ensures Q (m >>= f)
unfolding ◌>>=◌
Ensures-bind (ok a) f h k = k a (h.at a refl)
Ensures-bind (raised e) f h k = record { at = λ b e'. cc }

pub Ensures-any {ℓ κ ν} :
    {A : Type ℓ} {B : Type κ} {Q : B → Type ν} (m : Py A) (f : A → Py B)
    → ((a : A) → Ensures Q (f a))
    → Ensures Q (m >>= f)
unfolding ◌>>=◌
Ensures-any (ok a) f k = k a
Ensures-any (raised e) f k = record { at = λ b e'. cc }

-- The value of a key, with its default where the key is missing.
unfoldable pub field_or : Value → String → Value → Value
field_or (obj fs) k d = or_default (lookup k fs) d
field_or v k d = d

-- A `get` that does not raise returns `field_or`.
pub Ensures-get {ℓ κ} :
    {B : Type ℓ} {Q : B → Type κ} (v : Value) (k : String) (d : Value) (f : Value → Py B)
    → Ensures Q (f (field_or v k d))
    → Ensures Q (get v k d >>= f)
unfolding ◌>>=◌ get field_or
Ensures-get (obj fs) k d f h = h
Ensures-get _ k d f h = record { at = λ b e. cc }
