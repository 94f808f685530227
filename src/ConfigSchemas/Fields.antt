-- ===== src/ConfigSchemas/Fields.antt =====
-- api/config_schemas.py: the bounds of `Field` and the validators that several schemas have. A list of
-- problems is the list of errors of the ValidationError, and is empty where the schema accepts.
use netdeploy.Base.{
  ℕ, String, Bool, ◌&&◌, List, [], ◌∷◌, ◌++◌, Option, none, some, length, ltb, if◌then◌else◌, ℤ,
  pos, leb_ℤ,
}
use netdeploy.Text.{Text}
use netdeploy.Value.{str}
use netdeploy.Ip.{Network, ipv4_address, ipv4_network}

pub data Problem : Type 0 where
  out_of_range : String → ℤ → Problem
  too_long : String → Text → Problem
  not_cidr : Text → Problem
  not_address : Text → Problem
  not_network : Text → Problem
  short_hold : ℤ → ℤ → Problem

unfoldable pub report : Bool → Problem → List Problem
report good p = if good then [] else p ∷ []

-- `ge=low, le=high`
abbrev pub within : ℕ → ℕ → ℤ → Bool
within low high n = leb_ℤ (pos low) n && leb_ℤ n (pos high)

unfoldable pub bounded : String → ℕ → ℕ → ℤ → List Problem
unfolding report
bounded field low high n = report (within low high n) (out_of_range field n)

unfoldable pub bounded_option : String → ℕ → ℕ → Option ℤ → List Problem
unfolding bounded
bounded_option field low high none = []
bounded_option field low high (some n) = bounded field low high n

-- `ge=low`
unfoldable pub at_least : String → ℕ → Option ℤ → List Problem
unfolding report
at_least field low none = []
at_least field low (some n) = report (leb_ℤ (pos low) n) (out_of_range field n)

-- `max_length=255`
unfoldable pub short_enough : String → Option Text → List Problem
unfolding report
short_enough field none = []
short_enough field (some t) = report (ltb (length t) 256) (too_long field t)

unfoldable pub address_problems : Text → Option ℕ → List Problem
address_problems v none = not_address v ∷ []
address_problems v (some a) = []

unfoldable pub validate_ip : Text → List Problem
unfolding address_problems
validate_ip v = address_problems v (ipv4_address (str v))

unfoldable pub all_problems {ℓ} : {A : Type ℓ} → (A → List Problem) → List A → List Problem
all_problems f [] = []
all_problems f (x ∷ xs) = f x ++ all_problems f xs

unfoldable pub validate_router_id : Option Text → List Problem
unfolding validate_ip
validate_router_id none = []
validate_router_id (some v) = validate_ip v

unfoldable pub network_problems : Text → Option Network → List Problem
network_problems v none = not_network v ∷ []
network_problems v (some w) = []

unfoldable pub validate_networks : Text → List Problem
unfolding network_problems
validate_networks v = network_problems v (ipv4_network (str v))
