-- ===== src/Verifier/Parse.antt =====
-- core/state_verifier.py: the parsers of show and ping output.
use Prim.Native.Nat.{max}
use netdeploy.Base.{
  ℕ, ◌+◌, ◌-◌, ◌*◌, String, Bool, false, ◌&&◌, ◌||◌, [], ◌∷◌, Option, none, some, any, keep, leb,
  ◌==◌, str_eq, if◌then◌else◌,
}
use netdeploy.Text.{Text, codes, contains_text, splitlines, upper, is_digit}

-- any spelling of the keyword in the line
unfoldable pub says_established : Text → Bool
says_established line =
    any (λ kw. contains_text kw line)
      (codes "Established" ∷ codes "established" ∷ codes "ESTABLISHED" ∷ [])

-- `_parse_bgp_neighbor_state`
unfoldable pub parse_bgp_neighbor_state : Text → Text → String → Bool
unfolding says_established
parse_bgp_neighbor_state output neighbor_ip device_type =
    if contains_text neighbor_ip output
    then any says_established (keep (contains_text neighbor_ip) (splitlines output))
      || (str_eq device_type "junos" && contains_text (codes "State: Established") output)
    else false

-- `"FULL" in output.upper() or "Full" in output`
unfoldable pub says_full : Text → Bool
says_full output =
    contains_text (codes "FULL") (upper output) || contains_text (codes "Full") output

-- What follows a prefix.
after : Text → Text → Option Text
after [] t = some t
after (c ∷ p) [] = none
after (c ∷ p) (d ∷ t) = let rest = after p t in if c == d then rest else none

-- `(\d+)`: the number of the leading digits, and the rest, if there is a digit.
digits_from : ℕ → Text → ℕ × Text
digits_from n [] = (n, [])
digits_from n (c ∷ t) =
    let rest = digits_from (n * 10 + (c - 48)) t in if is_digit c then rest else (n, c ∷ t)

number_at : Text → Option (ℕ × Text)
unfolding digits_from
number_at [] = none
number_at (c ∷ t) = if is_digit c then some (digits_from 0 (c ∷ t)) else none

-- `re.search`: the first position where the pattern matches
search_from {ℓ} : {A : Type ℓ} → (Text → Option A) → Text → Option A
search_from at [] = at []
search_from at (c ∷ t) =
    let rest = search_from at t in elim (at (c ∷ t)) [ none ↦ rest | some a ↦ some a ]

infixl 5 ◌>>=◌
abbrev ◌>>=◌ {ℓ κ} : {A : Type ℓ} {B : Type κ} → Option A → (A → Option B) → Option B
none >>= f = none
some a >>= f = f a

-- `Success rate is (\d+) percent`
cisco_rate_at : Text → Option ℕ
unfolding number_at after
cisco_rate_at t = do
  t₁ ← after (codes "Success rate is ") t
  m ← number_at t₁
  t₃ ← after (codes " percent") m.1
  some m.0

-- `(\d+) packets transmitted, (\d+) received`
packets_at : Text → Option (ℕ × ℕ)
unfolding number_at after
packets_at t = do
  m ← number_at t
  t₂ ← after (codes " packets transmitted, ") m.1
  r ← number_at t₂
  t₄ ← after (codes " received") r.1
  some (m.0, r.0)

-- `rcvd / max(sent, 1) >= 0.67`, without the division; no rounding crosses the bound for fewer than
-- 10 ^ 13 packets
unfoldable pub enough : ℕ × ℕ → Bool
enough (sent, rcvd) = leb (67 * max sent 1) (100 * rcvd)

packets_or : Text → Option (ℕ × ℕ) → Bool
packets_or output none = contains_text (codes "!!!") output
packets_or output (some m) = enough m

rate_or : Text → Option ℕ → Bool
unfolding packets_or search_from packets_at
rate_or output none = packets_or output (search_from packets_at output)
rate_or output (some rate) = leb 67 rate

-- `_parse_ping_success`
unfoldable pub parse_ping_success : Text → Bool
unfolding rate_or search_from cisco_rate_at
parse_ping_success output = rate_or output (search_from cisco_rate_at output)
