-- ===== src/Tests/Configs.antt =====
-- Validation and command generation on small configurations.
use netdeploy.Base.{◌↔◌, All, true, false, some, ◌≡◌, refl, List, [], ◌∷◌, ◌++◌, map, none, pos}
use netdeploy.Text.{Text, codes}
use netdeploy.Value.{Value, int, str, arr, obj, nil, cons, Fields, end, field, lookup}
use netdeploy.Py.{ok, iterate, field_or}
use netdeploy.Commands.{build, build_rollback, cisco_ios}
use netdeploy.Commands.Stanzas.{bgp_head, ospf_head}
use netdeploy.Commands.Rollback.{negated, build_rollback-stanzas, build_rollback-junos}
use netdeploy.Verifier.{VerificationResult, add_check, neighbor_check, no_checks, bgp_checks}
use netdeploy.Verifier.Verdict.{Reported, bgp_checks-Reported}
use netdeploy.ConfigSchemas.Bgp.{
  BgpConfig, BgpNeighbor, BgpRoutePolicy, permit, bgp_problems, policy_problems, validate_cidr,
}
use netdeploy.ConfigSchemas.Normal.{validate_cidr-normal}
use netdeploy.ConfigSchemas.Sound.{NeighborPasses, IsNetwork, bgp_problems-accepted}
use netdeploy.Validator.{validate}
use netdeploy.Validator.Rules.{validate_asn, validate_timers}
use netdeploy.Validator.Policies.{action_of, validate-one_action}
use netdeploy.Validator.Neighbors.{IsBgpSound, validate-BgpSound}

abbrev neighbor : Value
neighbor =
    obj (field "neighbor_ip" (str (codes "10.0.0.2")) (field "remote_asn" (int (pos 65002)) end))

abbrev bgp : Value
bgp = obj (field "local_asn" (int (pos 65001)) (field "neighbors" (arr (cons neighbor nil)) end))

abbrev config : Fields
config = field "bgp" bgp end

-- what the generator makes of the BGP section for JunOS
abbrev junos_commands : List Text
junos_commands =
    codes "set routing-options autonomous-system 65001"
    ∷ codes "set protocols bgp group EBGP type external"
    ∷ codes "set protocols bgp group EBGP neighbor 10.0.0.2 peer-as 65002"
    ∷ []

validate-BgpSound_example : IsBgpSound bgp
unfolding validate lookup netdeploy.Py.◌>>=◌ netdeploy.Validator.Sections.validate_bgp
    netdeploy.Py.get netdeploy.Py.iterate netdeploy.Value.items_list netdeploy.Py.need_hash
    netdeploy.Value.hashable netdeploy.Validator.check_policy_conflicts
    netdeploy.Validator.cross_protocol_conflicts netdeploy.Validator.validate_all_cidrs
    netdeploy.Validator.check_device_compatibility validate_asn netdeploy.Value.as_int
    netdeploy.Validator.Rules.validate_neighbor_ip netdeploy.Ip.ipv4_address
    netdeploy.Ip.is_loopback netdeploy.Ip.ip_of_text netdeploy.Ip.is_reserved
    netdeploy.Text.all_digits netdeploy.Text.digits_value netdeploy.Text.split_on
    netdeploy.Validator.Rules.in_range netdeploy.Validator.Rules.neighbor_issues
    netdeploy.Validator.Rules.validate_local_remote_asn netdeploy.Validator.Sections.given
    netdeploy.Validator.Sections.neighbor_findings netdeploy.Validator.Sections.neighbors_findings
    netdeploy.Validator.collect netdeploy.Validator.is_empty netdeploy.Validator.policy_conflicts
    netdeploy.Validator.validate_object netdeploy.Validator.validate_section netdeploy.Value.truthy
    netdeploy.Value.value_eq netdeploy.Value.py_str
validate-BgpSound_example = validate-BgpSound config none bgp refl refl refl

build_rollback-stanzas_example :
    build_rollback config "cisco_ios"
    ≡ ok (negated bgp_head (lookup "bgp" config) ++ negated ospf_head (lookup "ospf" config))
unfolding build netdeploy.Commands.vendor netdeploy.Py.◌>>=◌ lookup netdeploy.Commands.bgp_commands
    netdeploy.Commands.Ios.bgp_commands_cisco_ios netdeploy.Py.get netdeploy.Commands.Lines.each_of
    netdeploy.Py.iterate netdeploy.Value.items_list
build_rollback-stanzas_example = build_rollback-stanzas config "cisco_ios" cisco_ios refl refl refl

build_rollback-junos_example :
    (rests : List Text) × (junos_commands ≡ map (λ r. codes "set " ++ r) rests)
    × (build_rollback config "junos" ≡ ok (map (λ r. codes "delete " ++ r) rests))
unfolding build netdeploy.Commands.vendor netdeploy.Py.◌>>=◌ lookup netdeploy.Commands.bgp_commands
    netdeploy.Commands.Junos.bgp_commands_junos netdeploy.Commands.Junos.bgp_neighbor
    netdeploy.Py.get netdeploy.Commands.Lines.each_of netdeploy.Py.iterate
    netdeploy.Value.items_list netdeploy.Value.py_str netdeploy.Value.truthy
    netdeploy.Value.value_eq netdeploy.Text.decimal_ℤ netdeploy.Text.decimal
    netdeploy.Commands.Lines.when
build_rollback-junos_example = build_rollback-junos config refl

abbrev bgp_output : Text
bgp_output = codes "10.0.0.2 4 65002 Established\n"

abbrev verified : VerificationResult
verified =
    add_check
      (neighbor_check bgp_output (codes "10.0.0.2") "cisco_ios" (codes "show ip bgp summary"))
      no_checks

bgp_checks-Reported_example :
    (ns : List Value) × (iterate (field_or bgp "neighbors" (arr nil)) ≡ ok ns)
    × ((verified.passed ≡ true) ↔ All (Reported bgp_output "cisco_ios") ns)
unfolding bgp_checks netdeploy.Py.◌>>=◌ netdeploy.Py.get iterate netdeploy.Value.items_list
    netdeploy.Verifier.check_neighbors netdeploy.Py.need_text lookup
bgp_checks-Reported_example =
    bgp_checks-Reported bgp "cisco_ios" (codes "show ip bgp summary") bgp_output {r = verified} refl

abbrev peer : BgpNeighbor
peer = record {
  neighbor_ip = codes "10.0.0.2";
  remote_asn = pos 65002;
  description = some (codes "peer-r2");
  keepalive = some (pos 30);
  hold_time = some (pos 90);
  next_hop_self = false;
  soft_reconfiguration = false;
  route_map_in = none;
  route_map_out = none;
  password = none;
  shutdown = false;
}

abbrev typed_bgp : BgpConfig
typed_bgp = record {
  local_asn = pos 65001;
  router_id = some (codes "10.0.0.1");
  neighbors = peer ∷ [];
  route_policies = [];
  networks = codes "10.1.0.0/16" ∷ [];
  graceful_restart = false;
  log_neighbor_changes = true;
  bestpath_as_path_multipath_relax = false;
}

bgp_problems-accepted_example :
    (validate_asn (int (pos 65001)) ≡ [])
    × All NeighborPasses (peer ∷ [])
    × All IsNetwork (codes "10.1.0.0/16" ∷ [])
unfolding bgp_problems netdeploy.Ip.ipv4_address netdeploy.ConfigSchemas.Bgp.neighbor_problems
    netdeploy.ConfigSchemas.Fields.validate_networks netdeploy.Ip.ipv4_network
bgp_problems-accepted_example = bgp_problems-accepted typed_bgp refl

abbrev host_policy : BgpRoutePolicy
host_policy = record {
  prefix = codes "10.1.2.3/8";
  action = permit;
  sequence = some (pos 10);
  description = none;
}

validate_cidr-normal_example :
    (policy_problems (validate_cidr host_policy) ≡ [])
    × (validate_cidr (validate_cidr host_policy) ≡ validate_cidr host_policy)
unfolding policy_problems netdeploy.ConfigSchemas.Bgp.cidr_problems netdeploy.Ip.ipv4_network
validate_cidr-normal_example = validate_cidr-normal host_policy refl

-- a policy with a prefix and an action
abbrev policy : Text → Text → Value
policy prefix action = obj (field "prefix" (str prefix) (field "action" (str action) end))

abbrev policies : Value
policies = arr (
    cons (policy (codes "10.0.0.0/8") (codes "permit")) (
      cons (policy (codes "10.1.0.0/16") (codes "deny"))
        (cons (policy (codes "10.0.0.0/8") (codes "permit")) nil)))

abbrev filtering : Value
filtering = obj (
    field "local_asn" (int (pos 65001))
      (field "neighbors" (arr (cons neighbor nil)) (field "route_policies" policies end)))

validate-one_action_example :
    action_of (policy (codes "10.0.0.0/8") (codes "permit")) ≡ str (codes "permit")
unfolding validate lookup netdeploy.Py.◌>>=◌ netdeploy.Validator.Sections.validate_bgp
    netdeploy.Py.get netdeploy.Py.iterate netdeploy.Value.items_list netdeploy.Py.need_hash
    netdeploy.Value.hashable netdeploy.Validator.check_policy_conflicts
    netdeploy.Validator.cross_protocol_conflicts netdeploy.Validator.validate_all_cidrs
    netdeploy.Validator.check_device_compatibility validate_asn netdeploy.Value.as_int
    netdeploy.Validator.Rules.validate_neighbor_ip netdeploy.Ip.ipv4_address
    netdeploy.Ip.is_loopback netdeploy.Ip.ip_of_text netdeploy.Ip.is_reserved
    netdeploy.Text.all_digits netdeploy.Text.digits_value netdeploy.Text.split_on
    netdeploy.Validator.Rules.in_range netdeploy.Validator.Rules.neighbor_issues
    netdeploy.Validator.Rules.validate_local_remote_asn netdeploy.Validator.Sections.given
    netdeploy.Validator.Sections.neighbor_findings netdeploy.Validator.Sections.neighbors_findings
    netdeploy.Validator.collect netdeploy.Validator.is_empty netdeploy.Validator.policy_conflicts
    netdeploy.Validator.validate_object netdeploy.Validator.validate_section netdeploy.Value.truthy
    netdeploy.Value.value_eq netdeploy.Value.py_str netdeploy.Ip.ipv4_network
    netdeploy.Validator.Rules.validate_prefix netdeploy.Validator.conflict
    netdeploy.Validator.last_action netdeploy.Validator.policy_step netdeploy.Text.text_eq
    netdeploy.Text.strip netdeploy.Validator.Rules.validate_router_id netdeploy.Py.field_or
    netdeploy.Ip.host_mask netdeploy.Ip.broadcast netdeploy.Ip.network_is netdeploy.Ip.is_link_local
    netdeploy.Py.less netdeploy.Py.times
validate-one_action_example =
    validate-one_action (field "bgp" filtering end) none filtering []
      (policy (codes "10.1.0.0/16") (codes "deny") ∷ []) []
      (policy (codes "10.0.0.0/8") (codes "permit")) (policy (codes "10.0.0.0/8") (codes "permit"))
      (codes "10.0.0.0/8") (codes "permit") refl refl refl refl refl refl refl refl refl refl
