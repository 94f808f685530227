-- ===== src/Value/Render.antt =====
-- `str(v)` and `repr(v)`, which f-strings use. A code point above 127 is taken to be printable.
use netdeploy.Base.{
  ℕ, ◌+◌, ◌/◌, ◌%◌, Bool, true, false, ◌&&◌, ◌||◌, not, [], ◌∷◌, ◌++◌, ltb, ◌==◌, any,
  if◌then◌else◌,
}
use netdeploy.Text.{Text, codes, decimal_ℤ}
use netdeploy.Value.Defs.{
  Value, null, bool, int, str, arr, obj, Items, nil, cons, Fields, end, field,
}

hex_digit : ℕ → ℕ
hex_digit d = if ltb d 10 then 48 + d else 87 + d

escape_char : ℕ → ℕ → Text
unfolding hex_digit
escape_char quote c =
    if c == 92 || c == quote
    then 92 ∷ c ∷ []
    else if c == 10
    then codes "\\n"
    else if c == 13
    then codes "\\r"
    else if c == 9
    then codes "\\t"
    else if ltb c 32 || c == 127
    then codes "\\x" ++ (hex_digit (c / 16) ∷ hex_digit (c % 16) ∷ [])
    else c ∷ []

escape_text : ℕ → Text → Text
unfolding escape_char
escape_text quote [] = []
escape_text quote (c ∷ t) = escape_char quote c ++ escape_text quote t

unfoldable pub repr_text : Text → Text
unfolding escape_text
repr_text t =
    let quote : ℕ = if any (λ c. c == 39) t && not (any (λ c. c == 34) t) then 34 else 39 in
    quote ∷ (escape_text quote t ++ (quote ∷ []))

unfoldable mutual
  unfolding repr_text decimal_ℤ

  pub repr : Value → Text
  repr null = codes "None"
  repr (bool b) = if b then codes "True" else codes "False"
  repr (int n) = decimal_ℤ n
  repr (str t) = repr_text t
  repr (arr vs) = codes "[" ++ (repr_items vs true ++ codes "]")
  repr (obj fs) = codes "{" ++ (repr_fields fs true ++ codes "}")

  -- the flag tells that no comma is due
  pub repr_items : Items → Bool → Text
  repr_items nil first = []
  repr_items (cons v vs) first =
      (if first then [] else codes ", ") ++ (repr v ++ repr_items vs false)

  pub repr_fields : Fields → Bool → Text
  repr_fields end first = []
  repr_fields (field k v fs) first =
      (if first then [] else codes ", ")
      ++ (repr_text (codes k) ++ (codes ": " ++ (repr v ++ repr_fields fs false)))

-- `str(v)`, and `f"{v}"`
unfoldable pub py_str : Value → Text
unfolding repr
py_str (str t) = t
py_str v = repr v
