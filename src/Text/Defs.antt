-- ===== src/Text/Defs.antt =====
-- The operations of `str` that the source uses: `in`, `startswith`, `split`, `splitlines`,
-- `strip`, `upper`, `lower`, `isdigit`, `int`, f-string conversion of integers and `replace`.
use Prim.Native.Char.{code}
use netdeploy.Base.{
  ℕ, zero, suc, ◌+◌, ◌-◌, ◌*◌, ◌/◌, ◌%◌, String, Bool, true, false, not, ◌&&◌, ◌||◌, List, [], ◌∷◌,
  ◌++◌, map, Option, none, some, ltb, leb, ◌==◌, if◌then◌else◌, ◌≡◌, refl, ◌⊎◌, inl, inr,
  Bool-cases, ℤ, pos, negsuc,
}

abbrev pub Text : Type 0
Text = List ℕ

-- The code points of a literal.
abbrev pub codes : String → Text
codes String.[] = []
codes (String.◌∷◌ c s) = code c ∷ codes s

unfoldable pub text_eq : Text → Text → Bool
text_eq [] [] = true
text_eq [] (d ∷ t) = false
text_eq (c ∷ s) [] = false
text_eq (c ∷ s) (d ∷ t) = (c == d) && text_eq s t

-- `t.startswith(p)`, as `starts_with p t`
unfoldable pub starts_with : Text → Text → Bool
starts_with [] t = true
starts_with (c ∷ p) [] = false
starts_with (c ∷ p) (d ∷ t) = (c == d) && starts_with p t

-- `needle in t`
unfoldable pub contains_text : Text → Text → Bool
unfolding starts_with
contains_text needle [] = starts_with needle []
contains_text needle (c ∷ t) = starts_with needle (c ∷ t) || contains_text needle t

-- `t.split(sep)` for a separator of one character: always one part at least.
pub push_char : ℕ → List Text → List Text
push_char c [] = (c ∷ []) ∷ []
push_char c (p ∷ ps) = (c ∷ p) ∷ ps

unfoldable pub split_on : ℕ → Text → List Text
unfolding push_char
split_on sep [] = [] ∷ []
split_on sep (c ∷ t) = let rest = split_on sep t in if c == sep then [] ∷ rest else push_char c rest

-- the characters that end a line for `splitlines`
is_break : ℕ → Bool
is_break c =
    (leb 10 c && leb c 13) || (leb 28 c && leb c 30) || (c == 133) || (c == 8232) || (c == 8233)

-- The line so far, reversed; `open` tells whether a line is open, and `cr` whether the last
-- character was a carriage return, which makes one break with a line feed.
reverse_onto : Text → Text → Text
reverse_onto [] acc = acc
reverse_onto (c ∷ t) acc = reverse_onto t (c ∷ acc)

lines_from : Text → Bool → Bool → Text → List Text
lines_from line opened cr [] = if opened then reverse_onto line [] ∷ [] else []
lines_from line opened cr (c ∷ t) =
    let joined = cr && (c == 10) in
    let rest = lines_from (if is_break c then [] else c ∷ line) (not (is_break c)) (c == 13) t in
    if joined then rest else if is_break c then reverse_onto line [] ∷ rest else rest

unfoldable pub splitlines : Text → List Text
unfolding lines_from is_break reverse_onto
splitlines = lines_from [] false false

-- `str.isspace` of one character
is_space : ℕ → Bool
is_space c =
    (leb 9 c && leb c 13)
    || (leb 28 c && leb c 32)
    || (c == 133)
    || (c == 160)
    || (c == 5760)
    || (leb 8192 c && leb c 8202)
    || (c == 8232)
    || (c == 8233)
    || (c == 8239)
    || (c == 8287)
    || (c == 12288)

lstrip : Text → Text
lstrip [] = []
lstrip (c ∷ t) = let rest = lstrip t in if is_space c then rest else c ∷ t

keep_before : ℕ → Text → Text
keep_before c [] = if is_space c then [] else c ∷ []
keep_before c (d ∷ r) = c ∷ d ∷ r

-- `t.rstrip()`: a character stays if it is no space or something stays after it
unfoldable pub rstrip : Text → Text
unfolding is_space keep_before
rstrip [] = []
rstrip (c ∷ t) = keep_before c (rstrip t)

-- What `rstrip` leaves is empty or begins as its argument does.
keep_before_head :
    (c : ℕ) (r : Text) → (keep_before c r ≡ []) ⊎ ((u : Text) × (keep_before c r ≡ c ∷ u))
unfolding keep_before
keep_before_head c [] = elim (Bool-cases (is_space c)) [
  | inl h ↦ inl (rw h)
  | inr h ↦ inr ([], rw h)
]
keep_before_head c (d ∷ r) = inr (d ∷ r, refl)

pub rstrip_head :
    (c : ℕ) (t : Text) → (rstrip (c ∷ t) ≡ []) ⊎ ((u : Text) × (rstrip (c ∷ t) ≡ c ∷ u))
unfolding rstrip
rstrip_head c t = keep_before_head c (rstrip t)

unfoldable pub strip : Text → Text
unfolding lstrip rstrip is_space
strip t = rstrip (lstrip t)

unfoldable pub upper : Text → Text
upper = map (λ c. if leb b'a' c && leb c b'z' then c - 32 else c)

unfoldable pub lower : Text → Text
lower = map (λ c. if leb b'A' c && leb c b'Z' then c + 32 else c)

abbrev pub is_digit : ℕ → Bool
is_digit c = leb b'0' c && leb c b'9'

-- `t.isascii() and t.isdigit()`
unfoldable pub all_digits : Text → Bool
all_digits [] = false
all_digits (c ∷ []) = is_digit c
all_digits (c ∷ d ∷ t) = is_digit c && all_digits (d ∷ t)

-- The digits of `int(t)`, which may have single underscores between them. The flag tells whether
-- the last character was a digit.
unfoldable pub digits_value : Bool → ℕ → Text → Option ℕ
digits_value after acc [] = if after then some acc else none
digits_value after acc (c ∷ t) =
    let rest = digits_value (is_digit c) (if is_digit c then acc * 10 + (c - 48) else acc) t in
    if is_digit c || (c == b'_' && after) then rest else none

negate : Option ℕ → Option ℤ
negate none = none
negate (some zero) = some (pos 0)
negate (some (suc n)) = some (negsuc n)

as_pos : Option ℕ → Option ℤ
as_pos none = none
as_pos (some n) = some (pos n)

signed : Text → Option ℤ
unfolding digits_value as_pos negate
signed [] = none
signed (c ∷ t) =
    if c == b'-'
    then negate (digits_value false 0 t)
    else if c == b'+'
    then as_pos (digits_value false 0 t)
    else as_pos (digits_value false 0 (c ∷ t))

-- `int(t)`: `none` is a ValueError
unfoldable pub int_of_text : Text → Option ℤ
unfolding signed strip
int_of_text t = signed (strip t)

-- `str(n)` by repeated division, with fuel `n + 1`, which is more than the number of digits.
decimal_onto : ℕ → ℕ → Text → Text
decimal_onto zero n acc = acc
decimal_onto (suc f) n acc =
    let rest = decimal_onto f (n / 10) ((48 + n % 10) ∷ acc) in
    if ltb n 10 then (48 + n) ∷ acc else rest

unfoldable pub decimal : ℕ → Text
unfolding decimal_onto
decimal n = decimal_onto (suc n) n []

unfoldable pub decimal_ℤ : ℤ → Text
unfolding decimal
decimal_ℤ (pos n) = decimal n
decimal_ℤ (negsuc n) = b'-' ∷ decimal (suc n)

drop_text : ℕ → Text → Text
drop_text zero t = t
drop_text (suc n) [] = []
drop_text (suc n) (c ∷ t) = drop_text n t

text_length : Text → ℕ
text_length [] = 0
text_length (c ∷ t) = suc (text_length t)

-- `t.replace(old, new, 1)`
unfoldable pub replace_first : Text → Text → Text → Text
unfolding starts_with drop_text text_length
replace_first old new [] = if starts_with old [] then new else []
replace_first old new (c ∷ t) =
    let rest = replace_first old new t in
    if starts_with old (c ∷ t) then new ++ drop_text (text_length old) (c ∷ t) else c ∷ rest

-- `t[:n]`
unfoldable pub take_text : ℕ → Text → Text
take_text zero t = []
take_text (suc n) [] = []
take_text (suc n) (c ∷ t) = c ∷ take_text n t

-- The text has no occurrence of the character.
unfoldable pub lacks : ℕ → Text → Bool
lacks sep [] = true
lacks sep (c ∷ t) = not (c == sep) && lacks sep t
