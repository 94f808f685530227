-- ===== src/Validator/Rules.antt =====
-- core/validator.py: the classes `CIDRValidationRule`, `BGPValidationRule` and
-- `OSPFValidationRule`. A rule returns its errors (or warnings) in order.
use netdeploy.Base.{
  ℕ, Bool, true, false, not, ◌&&◌, List, [], ◌∷◌, ◌++◌, Option, none, some, length, any, ◌==◌,
  if◌then◌else◌, ℤ, pos, leb_ℤ,
}
use netdeploy.Text.{Text, split_on, int_of_text}
use netdeploy.Value.{Value, int, as_int, value_eq}
use netdeploy.Py.{Py, ok, ◌>>=◌, times, less}
use netdeploy.Ip.{
  Network, ipv4_address, ipv4_network, network_is, is_loopback, is_reserved, is_link_local,
}
use netdeploy.Validator.Issues.{
  Issue, loopback_prefix, link_local_prefix, bad_prefix, bad_asn, loopback_neighbor,
  reserved_neighbor, zero_neighbor, bad_neighbor, zero_router_id, loopback_router_id, bad_router_id,
  short_hold_time, internal_peering, area_shape, area_octet, area_range, bad_area,
  short_dead_interval,
}

-- `if test: errors.append(issue)`
abbrev pub flag : Bool → Issue → List Issue
flag true i = i ∷ []
flag false i = []

prefix_issues : Value → Option Network → List Issue
prefix_issues prefix none = bad_prefix prefix ∷ []
prefix_issues prefix (some n) =
    flag (network_is is_loopback n) (loopback_prefix prefix)
    ++ flag (network_is is_link_local n) (link_local_prefix prefix)

unfoldable pub validate_prefix : Value → List Issue
unfolding prefix_issues
validate_prefix prefix = prefix_issues prefix (ipv4_network prefix)

unfoldable pub in_range : ℕ → ℕ → Option ℤ → Bool
in_range low high none = false
in_range low high (some n) = leb_ℤ (pos low) n && leb_ℤ n (pos high)

-- A bool passes `isinstance(asn, int)`.
unfoldable pub validate_asn : Value → List Issue
unfolding in_range
validate_asn asn = flag (not (in_range 1 4294967295 (as_int asn))) (bad_asn asn)

unfoldable pub neighbor_issues : Value → Option ℕ → List Issue
neighbor_issues ip none = bad_neighbor ip ∷ []
neighbor_issues ip (some a) =
    flag (is_loopback a) (loopback_neighbor ip)
    ++ (flag (is_reserved a) (reserved_neighbor ip) ++ flag (a == 0) (zero_neighbor ip))

unfoldable pub validate_neighbor_ip : Value → List Issue
unfolding neighbor_issues
validate_neighbor_ip ip = neighbor_issues ip (ipv4_address ip)

router_id_issues : Value → Option ℕ → List Issue
router_id_issues router_id none = bad_router_id router_id ∷ []
router_id_issues router_id (some a) =
    flag (a == 0) zero_router_id ++ flag (is_loopback a) (loopback_router_id router_id)

unfoldable pub validate_router_id : Value → List Issue
unfolding router_id_issues
validate_router_id router_id = router_id_issues router_id (ipv4_address router_id)

-- A hold time of 0 disables the timer.
unfoldable pub validate_timers : Value → Value → Py (List Issue)
validate_timers keepalive hold_time = if value_eq hold_time (int (pos 0)) then ok [] else (do
  least ← times keepalive 3
  short ← less hold_time least
  ok (flag short (short_hold_time hold_time keepalive)))

unfoldable pub validate_local_remote_asn : Value → Value → List Issue
validate_local_remote_asn local_asn remote_asn =
    flag (value_eq local_asn remote_asn) (internal_peering local_asn)

octet_issue : Text → Text → ℤ → List Issue
unfolding in_range
octet_issue area part n = flag (not (in_range 0 255 (some n))) (area_octet area part)

-- The loop over the parts ends where `int(part)` raises.
octet_issues : Text → List Text → List Issue
unfolding octet_issue
octet_issues area [] = []
octet_issues area (part ∷ parts) =
    let rest = octet_issues area parts in
    elim (int_of_text part) [ none ↦ bad_area area ∷ [] | some n ↦ octet_issue area part n ++ rest ]

number_issues : Text → Option ℤ → List Issue
unfolding in_range
number_issues area none = bad_area area ∷ []
number_issues area (some n) = flag (not (in_range 0 4294967295 (some n))) (area_range area)

-- The source calls it with `str(area_id)`.
unfoldable pub validate_area_id : Text → List Issue
unfolding octet_issues number_issues
validate_area_id area =
    if any (λ c. c == b'.') area
    then if length (split_on b'.' area) == 4
      then octet_issues area (split_on b'.' area)
      else area_shape area ∷ []
    else number_issues area (int_of_text area)

unfoldable pub validate_hello_interval : Value → Value → Py (List Issue)
validate_hello_interval hello dead = do
  least ← times hello 4
  short ← less dead least
  ok (flag short (short_dead_interval dead hello))
