-- ===== src/ConfigSchemas/Sound.antt =====
-- api/config_schemas.py and core/validator.py: what the schema accepts, the rules of the validator
-- accept.
use netdeploy.Base.{
  ℕ, String, ◌≡◌, refl, ◌≤◌, ◌*◌, inr, List, [], ◌∷◌, Option, none, some, All, arith, ℤ, pos,
  negsuc,
}
use netdeploy.Text.{Text}
use netdeploy.Value.{str, int, as_int}
use netdeploy.Py.{ok}
use netdeploy.Ip.{Network, ipv4_address, ipv4_network}
use netdeploy.Validator.Rules.{validate_asn, validate_timers, in_range}
use netdeploy.Validator.Ranges.{append-nil-both, validate_timers_iff}
use netdeploy.ConfigSchemas.Fields.{
  Problem, all_problems, bounded, report, validate_ip, address_problems, validate_networks,
  network_problems, bounded_option,
}
use netdeploy.ConfigSchemas.Bgp.{
  BgpConfig, BgpNeighbor, bgp_problems, neighbor_problems, hold_time_problems,
  hold_time_gt_keepalive,
}

-- The rule of the validator on the timers of a neighbor that gives both.
abbrev pub TimersPass : Option ℤ → Option ℤ → Type 0
TimersPass (some k) (some h) = validate_timers (int k) (int h) ≡ ok []
TimersPass _ _ = Unit

abbrev pub NeighborPasses : BgpNeighbor → Type 0
NeighborPasses n =
    (validate_asn (int n.remote_asn) ≡ [])
    × ((a : ℕ) × (ipv4_address (str n.neighbor_ip) ≡ some a))
    × TimersPass n.keepalive n.hold_time

abbrev pub IsNetwork : Text → Type 0
IsNetwork t = (w : Network) × (ipv4_network (str t) ≡ some w)

all_problems-All :
    {A : Type 0} (f : A → List Problem) (P : A → Type 0) (xs : List A)
    → ((x : A) → f x ≡ [] → P x)
    → all_problems f xs ≡ []
    → All P xs
unfolding all_problems
all_problems-All f P [] sound e = tt
all_problems-All f P (x ∷ xs) sound e =
    let (here, there) = append-nil-both (f x) _ e in
    (sound x here, all_problems-All f P xs sound there)

asn_passes :
    (field : String) (n : ℤ) → bounded field 1 4294967295 n ≡ [] → validate_asn (int n) ≡ []
unfolding bounded report validate_asn in_range as_int
asn_passes field (pos n) e = ground arith
asn_passes field (negsuc n) e = ground arith

address_passes : (v : Text) → validate_ip v ≡ [] → (a : ℕ) × (ipv4_address (str v) ≡ some a)
unfolding validate_ip address_problems
address_passes v = go (ipv4_address (str v))
  where
    go : (o : Option ℕ) → address_problems v o ≡ [] → (a : ℕ) × (o ≡ some a)
    go none e = cc
    go (some a) e = (a, refl)

validate_networks-IsNetwork : (v : Text) → validate_networks v ≡ [] → IsNetwork v
unfolding validate_networks network_problems
validate_networks-IsNetwork v = go (ipv4_network (str v))
  where
    go : (o : Option Network) → network_problems v o ≡ [] → (w : Network) × (o ≡ some w)
    go none e = cc
    go (some w) e = (w, refl)

-- In a hold time that the schema accepts, three accepted keepalives fit.
three_fit :
    (k h : ℕ)
    → bounded_option "keepalive" 1 65535 (some (pos k)) ≡ []
    → hold_time_problems (some (pos k)) (some (pos h)) ≡ []
    → k * 3 ≤ h
unfolding bounded_option bounded report hold_time_problems hold_time_gt_keepalive
three_fit k h e e' = ground arith

hold_time_problems-TimersPass :
    (keepalive hold : Option ℤ)
    → bounded_option "keepalive" 1 65535 keepalive ≡ []
    → hold_time_problems keepalive hold ≡ []
    → TimersPass keepalive hold
unfolding bounded_option bounded report hold_time_problems
hold_time_problems-TimersPass none hold e e' = tt
hold_time_problems-TimersPass (some (pos k)) none e e' = tt
hold_time_problems-TimersPass (some (negsuc k)) none e e' = tt
hold_time_problems-TimersPass (some (pos k)) (some (pos h)) e e' =
    (validate_timers_iff k h).1 (inr (three_fit k h e e'))
hold_time_problems-TimersPass (some (negsuc k)) (some h) e e' = ground arith
hold_time_problems-TimersPass (some (pos k)) (some (negsuc h)) e e' = ground arith

neighbor_problems-NeighborPasses : (n : BgpNeighbor) → neighbor_problems n ≡ [] → NeighborPasses n
unfolding neighbor_problems
neighbor_problems-NeighborPasses n e =
    let (address, e₁) = append-nil-both (validate_ip n.neighbor_ip) _ e in
    let (asn, e₂) = append-nil-both (bounded "remote_asn" 1 4294967295 n.remote_asn) _ e₁ in
    let (described, e₃) = append-nil-both _ _ e₂ in
    let (kept, held) = append-nil-both _ _ e₃ in
    (asn_passes _ _ asn, address_passes _ address, hold_time_problems-TimersPass _ _ kept held)

-- Of a BGP configuration that the schema accepts, the validator's rules accept the local ASN, and
-- of each neighbor the remote ASN and, where both are given, the timers; each neighbor's address
-- and each network to advertise are ones of IPv4.
pub bgp_problems-accepted :
    (c : BgpConfig)
    → bgp_problems c ≡ []
    → (validate_asn (int c.local_asn) ≡ [])
      × All NeighborPasses c.neighbors
      × All IsNetwork c.networks
unfolding bgp_problems
bgp_problems-accepted c e =
    let (asn, e₁) = append-nil-both (bounded "local_asn" 1 4294967295 c.local_asn) _ e in
    let (router, e₂) = append-nil-both _ _ e₁ in
    let (peers, e₃) = append-nil-both _ _ e₂ in
    let (policies, nets) = append-nil-both _ _ e₃ in
    (
      asn_passes _ _ asn,
      all_problems-All _ NeighborPasses _ neighbor_problems-NeighborPasses peers,
      all_problems-All _ IsNetwork _ validate_networks-IsNetwork nets,
    )
