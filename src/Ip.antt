-- ===== src/Ip.antt =====
-- `ipaddress.IPv4Address` and `ipaddress.IPv4Network(…, strict=False)` of the standard library,
-- as core/validator.py, core/command_builder.py and api/config_schemas.py use them. `none` is
-- an AddressValueError or NetmaskValueError, both of them a ValueError.
pub mod Octets
pub mod Texts
use netdeploy.Base.{
  ℕ, zero, suc, ◌+◌, ◌-◌, ◌*◌, ◌/◌, ◌%◌, ◌^◌, Bool, true, false, not, ◌&&◌, List, [], ◌∷◌, ◌++◌,
  Option, none, some, ltb, leb, ◌==◌, any, if◌then◌else◌, ℤ, pos, negsuc,
}
use netdeploy.Text.{Text, codes, split_on, all_digits, digits_value, decimal}
use netdeploy.Value.{Value, as_int, py_str}

infixl 5 ◌>>=◌ ◌>>◌
abbrev ◌>>=◌ {ℓ κ} : {A : Type ℓ} {B : Type κ} → Option A → (A → Option B) → Option B
none >>= f = none
some a >>= f = f a

abbrev ◌>>◌ {ℓ κ} : {A : Type ℓ} {B : Type κ} → Option A → Option B → Option B
m >> k = m >>= λ _. k

abbrev check : Bool → Option (Unit {0})
check true = some tt
check false = none

at_most_three : Text → Bool
at_most_three (a ∷ b ∷ c ∷ d ∷ t) = false
at_most_three _ = true

leading_zero : Text → Bool
leading_zero (c ∷ d ∷ t) = c == 48
leading_zero _ = false

-- `_parse_octet`: one to three digits, no leading zero, at most 255
pub parse_octet : Text → Option ℕ
unfolding at_most_three leading_zero all_digits digits_value
parse_octet t = do
  check (all_digits t)
  check (at_most_three t)
  check (not (leading_zero t))
  n ← digits_value false 0 t
  check (leb n 255)
  some n

octets_value : List Text → Option ℕ
unfolding parse_octet
octets_value (a ∷ b ∷ c ∷ d ∷ []) = do
  i ← parse_octet a
  j ← parse_octet b
  k ← parse_octet c
  l ← parse_octet d
  some (((i * 256 + j) * 256 + k) * 256 + l)
octets_value _ = none

-- `_ip_int_from_string`
unfoldable pub ip_of_text : Text → Option ℕ
unfolding octets_value split_on
ip_of_text t = octets_value (split_on b'.' t)

ip_of_int : ℤ → Option ℕ
ip_of_int (pos n) = if ltb n (2 ^ 32) then some n else none
ip_of_int (negsuc n) = none

ip_of : Value → Option ℤ → Option ℕ
unfolding ip_of_int ip_of_text py_str
ip_of v (some n) = ip_of_int n
ip_of v none = if any (λ c. c == b'/') (py_str v) then none else ip_of_text (py_str v)

-- `IPv4Address(v)`: an int is the address itself, anything else is read as text
unfoldable pub ipv4_address : Value → Option ℕ
unfolding ip_of as_int
ipv4_address v = ip_of v (as_int v)

pub record Network : Type 0 where
  pub address : ℕ
  pub prefix_length : ℕ

-- The netmask of a prefix length, and its complement.
unfoldable pub host_mask : Network → ℕ
host_mask n = 2 ^ (32 - n.prefix_length) - 1

unfoldable pub netmask : Network → ℕ
unfolding host_mask
netmask n = 2 ^ 32 - 1 - host_mask n

unfoldable pub broadcast : Network → ℕ
unfolding host_mask
broadcast n = n.address + host_mask n

-- `_prefix_from_prefix_string`
prefix_of_digits : Text → Option ℕ
unfolding all_digits digits_value
prefix_of_digits t = do check (all_digits t); n ← digits_value false 0 t; check (leb n 32); some n

-- The prefix length whose netmask is `m`, searched downwards from `n`.
prefix_of_mask : ℕ → ℕ → Option ℕ
prefix_of_mask zero m = if m == 0 then some 0 else none
prefix_of_mask (suc n) m =
    let rest = prefix_of_mask n m in if m == 2 ^ 32 - 2 ^ (32 - suc n) then some (suc n) else rest

or_else : Option ℕ → Option ℕ → Option ℕ
or_else (some n) o = some n
or_else none o = o

-- `_prefix_from_ip_string`: a netmask, or else a host mask
prefix_of_ip : Text → Option ℕ
unfolding prefix_of_mask or_else ip_of_text
prefix_of_ip t = do
  m ← ip_of_text t
  or_else (prefix_of_mask 32 m) (prefix_of_mask 32 (2 ^ 32 - 1 - m))

-- `_make_netmask` of a text
pub prefix_of_text : Text → Option ℕ
unfolding prefix_of_digits prefix_of_ip or_else
prefix_of_text t = or_else (prefix_of_digits t) (prefix_of_ip t)

-- The host bits are cleared, since the source passes `strict=False`.
network : ℕ → ℕ → Network
network ip n = record { address = ip - ip % 2 ^ (32 - n); prefix_length = n }

network_of_parts : List Text → Option Network
unfolding prefix_of_text network ip_of_text
network_of_parts (a ∷ []) = do ip ← ip_of_text a; some (network ip 32)
network_of_parts (a ∷ m ∷ []) = do ip ← ip_of_text a; n ← prefix_of_text m; some (network ip n)
network_of_parts _ = none

network_of : Value → Option ℤ → Option Network
unfolding network_of_parts ip_of_int split_on py_str
network_of v (some n) = do ip ← ip_of_int n; some (network ip 32)
network_of v none = network_of_parts (split_on b'/' (py_str v))

-- `IPv4Network(v, strict=False)`
unfoldable pub ipv4_network : Value → Option Network
unfolding network_of as_int
ipv4_network v = network_of v (as_int v)

-- 127.0.0.0/8
unfoldable pub is_loopback : ℕ → Bool
is_loopback ip = ip / 2 ^ 24 == 127

-- 240.0.0.0/4
unfoldable pub is_reserved : ℕ → Bool
is_reserved ip = ip / 2 ^ 28 == 15

-- 169.254.0.0/16
unfoldable pub is_link_local : ℕ → Bool
is_link_local ip = ip / 2 ^ 16 == 43518

-- A network is of a range if its first and its last address are.
unfoldable pub network_is : (ℕ → Bool) → Network → Bool
unfolding broadcast
network_is range n = range n.address && range (broadcast n)

-- `str(address)`
unfoldable pub ip_text : ℕ → Text
ip_text ip =
    decimal (ip / 2 ^ 24)
    ++ (codes "."
        ++ (decimal (ip / 2 ^ 16 % 256)
            ++ (codes "." ++ (decimal (ip / 2 ^ 8 % 256) ++ (codes "." ++ decimal (ip % 256))))))
