-- ===== src/ConfigSchemas/Bgp.antt =====
-- api/config_schemas.py: the schemas of BGP. A record holds the fields after
-- Pydantic has read them with their types, before the bounds of `Field` and the validators; a list
-- of problems is the list of errors of the ValidationError, in the order of the fields, and is
-- empty where the schema accepts. A validator does not run on a field whose own bounds failed, and
-- sees only the fields before it that passed.
use netdeploy.Base.{
  Bool, not, ◌&&◌, List, [], ◌∷◌, ◌++◌, Option, none, some, if◌then◌else◌, ℤ, pos, ltb_ℤ, eqb_ℤ,
  scale,
}
use netdeploy.Text.{Text, codes, decimal}
use netdeploy.Value.{str}
use netdeploy.Ip.{Network, ipv4_network, ip_text}
use netdeploy.ConfigSchemas.Fields.{
  Problem, out_of_range, not_cidr, short_hold, report, within, bounded, bounded_option, at_least,
  short_enough, validate_ip, all_problems, validate_router_id, validate_networks,
}

pub data Action : Type 0 where
  permit : Action
  deny : Action

pub record BgpRoutePolicy : Type 0 where
  pub prefix : Text
  pub action : Action
  pub sequence : Option ℤ
  pub description : Option Text

-- `str(network)`
unfoldable pub network_text : Network → Text
network_text w = ip_text w.address ++ (codes "/" ++ decimal w.prefix_length)

unfoldable pub cidr_problems : Text → Option Network → List Problem
cidr_problems v none = not_cidr v ∷ []
cidr_problems v (some w) = []

unfoldable pub normal_form : Text → Option Network → Text
unfolding network_text
normal_form v none = v
normal_form v (some w) = network_text w

-- The value that `BGPRoutePolicy.validate_cidr` stores.
unfoldable pub validate_cidr : BgpRoutePolicy → BgpRoutePolicy
unfolding normal_form
validate_cidr p = record p { prefix = normal_form p.prefix (ipv4_network (str p.prefix)) }

unfoldable pub policy_problems : BgpRoutePolicy → List Problem
unfolding cidr_problems bounded_option
policy_problems p =
    cidr_problems p.prefix (ipv4_network (str p.prefix))
    ++ bounded_option "sequence" 1 65535 p.sequence

pub record BgpNeighbor : Type 0 where
  pub neighbor_ip : Text
  pub remote_asn : ℤ
  pub description : Option Text
  pub keepalive : Option ℤ
  pub hold_time : Option ℤ
  pub next_hop_self : Bool
  pub soft_reconfiguration : Bool
  pub route_map_in : Option Text
  pub route_map_out : Option Text
  pub password : Option Text
  pub shutdown : Bool

-- `keepalive and v and v < keepalive * 3`
abbrev too_short : ℤ → ℤ → Bool
too_short keepalive v =
    not (eqb_ℤ keepalive (pos 0)) && (not (eqb_ℤ v (pos 0)) && ltb_ℤ v (scale 3 keepalive))

-- `values.get("keepalive")`
abbrev seen : Option ℤ → Option ℤ
seen none = none
seen (some k) = if within 1 65535 k then some k else none

unfoldable pub hold_time_gt_keepalive : Option ℤ → ℤ → List Problem
unfolding report
hold_time_gt_keepalive none v = []
hold_time_gt_keepalive (some keepalive) v =
    report (not (too_short keepalive v)) (short_hold v keepalive)

unfoldable pub hold_time_problems : Option ℤ → Option ℤ → List Problem
unfolding hold_time_gt_keepalive
hold_time_problems keepalive none = []
hold_time_problems keepalive (some v) =
    if within 3 65535 v
    then hold_time_gt_keepalive (seen keepalive) v
    else out_of_range "hold_time" v ∷ []

unfoldable pub neighbor_problems : BgpNeighbor → List Problem
unfolding validate_ip bounded short_enough bounded_option hold_time_problems
neighbor_problems n =
    validate_ip n.neighbor_ip
    ++ (bounded "remote_asn" 1 4294967295 n.remote_asn
        ++ (short_enough "description" n.description
            ++ (bounded_option "keepalive" 1 65535 n.keepalive
                ++ hold_time_problems n.keepalive n.hold_time)))

pub data Afi : Type 0 where
  ipv4 : Afi
  ipv6 : Afi
  vpnv4 : Afi
  vpnv6 : Afi

pub data Safi : Type 0 where
  unicast : Safi
  multicast : Safi
  labeled_unicast : Safi

pub record BgpAddressFamily : Type 0 where
  pub afi : Afi
  pub safi : Safi
  pub activate : Bool
  pub send_community : Bool
  pub maximum_prefix : Option ℤ

unfoldable pub family_problems : BgpAddressFamily → List Problem
unfolding at_least
family_problems f = at_least "maximum_prefix" 1 f.maximum_prefix

pub record BgpConfig : Type 0 where
  pub local_asn : ℤ
  pub router_id : Option Text
  pub neighbors : List BgpNeighbor
  pub route_policies : List BgpRoutePolicy
  pub networks : List Text
  pub graceful_restart : Bool
  pub log_neighbor_changes : Bool
  pub bestpath_as_path_multipath_relax : Bool

unfoldable pub bgp_problems : BgpConfig → List Problem
unfolding bounded validate_router_id all_problems
bgp_problems c =
    bounded "local_asn" 1 4294967295 c.local_asn
    ++ (validate_router_id c.router_id
        ++ (all_problems neighbor_problems c.neighbors
            ++ (all_problems policy_problems c.route_policies
                ++ all_problems validate_networks c.networks)))
