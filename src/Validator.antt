-- ===== src/Validator.antt =====
-- core/validator.py: `ConfigValidator`. A dict of JSON values is checked, and a value of a wrong
-- type raises where Python raises; the numbers of JSON are integers here.
pub mod Issues
pub mod Rules
pub mod Sections
pub mod Ranges
pub mod Neighbors
pub mod Policies
use netdeploy.Base.{
  ℕ, String, Bool, true, false, not, ◌&&◌, List, [], ◌∷◌, ◌++◌, Option, none, some, length, any,
  ◌==◌, str_eq, if◌then◌else◌,
}
use netdeploy.Text.{Text, codes}
use netdeploy.Value.{Value, null, str, arr, obj, nil, Fields, end, lookup, truthy, value_eq, py_str}
use netdeploy.Py.{Py, ok, ◌>>=◌, ◌>>◌, get, iterate, need_hash}
use Issues.{
  Issue, not_an_object, duplicate_neighbor, duplicate_area, policy_conflict, router_ids_differ,
  md5_support,
}
use Rules.{
  validate_prefix, validate_asn, validate_neighbor_ip, validate_router_id, validate_timers,
  validate_local_remote_asn, validate_area_id, validate_hello_interval, flag,
}
use Sections.{Findings, validate_bgp, validate_ospf}

pub record ValidationResult : Type 0 where
  pub valid : Bool
  pub errors : List Issue
  pub warnings : List Issue

-- `for x in xs: issues.extend(check(x))`
unfoldable pub collect : (Value → Py (List Issue)) → List Value → Py (List Issue)
collect check [] = ok []
collect check (v ∷ vs) = do here ← check v; rest ← collect check vs; ok (here ++ rest)

-- the dict `seen`, newest assignment first
unfoldable pub last_action : Value → List (Value × Value) → Option Value
last_action prefix [] = none
last_action prefix ((p, a) ∷ seen) =
    let rest = last_action prefix seen in if value_eq p prefix then some a else rest

unfoldable pub conflict : Value → Value → Option Value → List Issue
conflict prefix action none = []
conflict prefix action (some old) =
    flag (not (value_eq old action)) (policy_conflict prefix old action)

-- one policy, with the dict before and after it
unfoldable pub policy_step :
    List (Value × Value) → Value → Value → Py (List Issue × List (Value × Value))
unfolding conflict last_action
policy_step seen prefix action =
    if truthy prefix && truthy action
    then (do
      need_hash prefix
      ok (conflict prefix action (last_action prefix seen), (prefix, action) ∷ seen))
    else ok ([], seen)

unfoldable pub policy_conflicts : List (Value × Value) → List Value → Py (List Issue)
unfolding policy_step
policy_conflicts seen [] = ok []
policy_conflicts seen (policy ∷ policies) = do
  prefix ← get policy "prefix" null
  action ← get policy "action" null
  (here, seen₁) ← policy_step seen prefix action
  rest ← policy_conflicts seen₁ policies
  ok (here ++ rest)

unfoldable pub check_policy_conflicts : Value → Py (List Issue)
unfolding policy_conflicts
check_policy_conflicts config = do
  bgp ← get config "bgp" (obj end)
  policies ← get bgp "route_policies" (arr nil)
  ps ← iterate policies
  policy_conflicts [] ps

prefix_check : Value → Py (List Issue)
prefix_check prefix = ok (validate_prefix prefix)

policy_prefix_check : Value → Py (List Issue)
policy_prefix_check policy = do
  prefix ← get policy "prefix" (str [])
  ok (if truthy prefix then validate_prefix prefix else [])

area_prefix_check : Value → Py (List Issue)
unfolding collect prefix_check
area_prefix_check area = do
  networks ← get area "networks" (arr nil)
  ns ← iterate networks
  collect prefix_check ns

unfoldable pub validate_all_cidrs : Value → Py (List Issue)
unfolding collect prefix_check policy_prefix_check area_prefix_check
validate_all_cidrs config = do
  bgp ← get config "bgp" (obj end)
  networks ← get bgp "networks" (arr nil)
  ns ← iterate networks
  of_networks ← collect prefix_check ns
  policies ← get bgp "route_policies" (arr nil)
  ps ← iterate policies
  of_policies ← collect policy_prefix_check ps
  ospf ← get config "ospf" (obj end)
  areas ← get ospf "areas" (arr nil)
  rows ← iterate areas
  of_areas ← collect area_prefix_check rows
  ok (of_networks ++ (of_policies ++ of_areas))

unfoldable pub cross_protocol_conflicts : Value → Py (List Issue)
cross_protocol_conflicts config = do
  bgp ← get config "bgp" (obj end)
  bgp_rid ← get bgp "router_id" null
  ospf ← get config "ospf" (obj end)
  ospf_rid ← get ospf "router_id" null
  ok (
      flag (truthy bgp_rid && (truthy ospf_rid && not (value_eq bgp_rid ospf_rid)))
        (router_ids_differ bgp_rid ospf_rid))

md5_check : Value → Py (List Issue)
md5_check area = do
  auth_type ← get area "authentication" null
  ok (flag (value_eq auth_type (str (codes "md5"))) md5_support)

arista_warnings : Value → Py (List Issue)
unfolding collect md5_check
arista_warnings config = do
  ospf ← get config "ospf" (obj end)
  areas ← get ospf "areas" (arr nil)
  rows ← iterate areas
  collect md5_check rows

unfoldable pub check_device_compatibility : Value → Option String → Py (List Issue)
unfolding arista_warnings
check_device_compatibility config none = ok []
check_device_compatibility config (some device_type) =
    if str_eq device_type "arista_eos" then arista_warnings config else ok []

-- `if key in device_config: …`
unfoldable pub validate_section : (Value → Py Findings) → Option Value → Py Findings
validate_section check none = ok ([], [])
validate_section check (some v) = check v

unfoldable pub is_empty : List Issue → Bool
is_empty [] = true
is_empty (i ∷ is) = false

unfoldable pub validate_object : Fields → Option String → Py ValidationResult
unfolding validate_section is_empty
validate_object device_config device_type = do
  bgp ← validate_section validate_bgp (lookup "bgp" device_config)
  ospf ← validate_section validate_ospf (lookup "ospf" device_config)
  conflicts ← check_policy_conflicts (obj device_config)
  cross ← cross_protocol_conflicts (obj device_config)
  cidrs ← validate_all_cidrs (obj device_config)
  compat ← check_device_compatibility (obj device_config) device_type
  let errors = bgp.0 ++ (ospf.0 ++ (conflicts ++ cidrs))
  ok (record {
    valid = is_empty errors;
    errors = errors;
    warnings = bgp.1 ++ (ospf.1 ++ (cross ++ compat));
  })

-- `validate`
unfoldable pub validate : Value → Option String → Py ValidationResult
unfolding validate_object
validate (obj device_config) device_type = validate_object device_config device_type
validate _ device_type = ok (record { valid = false; errors = not_an_object ∷ []; warnings = [] })

-- `preflight_reachability`: a placeholder that probes nothing
unfoldable pub preflight_reachability : List Text → List Text × List Text
preflight_reachability neighbor_ips = (neighbor_ips, [])
