-- ===== src/Validator/Sections.antt =====
-- core/validator.py: the BGP and the OSPF section, neighbor by neighbor and area by area.
use netdeploy.Base.{Bool, true, false, ◌&&◌, List, [], ◌∷◌, ◌++◌, any, if◌then◌else◌}
use netdeploy.Value.{Value, null, str, arr, nil, truthy, value_eq, py_str}
use netdeploy.Py.{Py, ok, ◌>>=◌, ◌>>◌, get, iterate, need_hash}
use netdeploy.Validator.Issues.{Issue, duplicate_neighbor, duplicate_area}
use netdeploy.Validator.Rules.{
  validate_asn, validate_neighbor_ip, validate_router_id, validate_timers,
  validate_local_remote_asn, validate_area_id, validate_hello_interval, flag,
}

-- the errors and the warnings of a section
abbrev pub Findings : Type 0
Findings = List Issue × List Issue

abbrev pub joined : Findings → Findings → Findings
joined f g = (f.0 ++ g.0, f.1 ++ g.1)

-- `v in seen` of a set of hashable values
abbrev pub seen_before : Value → List Value → Bool
seen_before v seen = any (λ w. value_eq w v) seen

-- `is not None`
unfoldable pub given : Value → Bool
given null = false
given _ = true

timer_issues : Value → Value → Py (List Issue)
unfolding given
timer_issues keepalive hold_time =
    if given keepalive && given hold_time then validate_timers keepalive hold_time else ok []

-- one neighbor, with the addresses seen before it
unfoldable pub neighbor_findings : Value → List Value → Value → Value → Value → Py Findings
unfolding timer_issues given
neighbor_findings local_asn seen neighbor ip remote_asn = do
  keepalive ← get neighbor "keepalive" null
  hold_time ← get neighbor "hold_time" null
  timers ← timer_issues keepalive hold_time
  need_hash ip
  ok (
    validate_neighbor_ip ip
        ++ ((if given remote_asn then validate_asn remote_asn else [])
            ++ (timers ++ flag (seen_before ip seen) (duplicate_neighbor ip))),
    (if truthy local_asn && truthy remote_asn
        then validate_local_remote_asn local_asn remote_asn
        else []),
  )

unfoldable pub neighbors_findings : Value → List Value → List Value → Py Findings
unfolding neighbor_findings
neighbors_findings local_asn seen [] = ok ([], [])
neighbors_findings local_asn seen (n ∷ ns) = do
  ip ← get n "neighbor_ip" (str [])
  remote_asn ← get n "remote_asn" null
  here ← neighbor_findings local_asn seen n ip remote_asn
  rest ← neighbors_findings local_asn (ip ∷ seen) ns
  ok (joined here rest)

unfoldable pub validate_bgp : Value → Py Findings
unfolding neighbors_findings given
validate_bgp bgp_config = do
  local_asn ← get bgp_config "local_asn" null
  router_id ← get bgp_config "router_id" null
  neighbors ← get bgp_config "neighbors" (arr nil)
  ns ← iterate neighbors
  rest ← neighbors_findings local_asn [] ns
  ok (
      joined
        (
          (if given local_asn then validate_asn local_asn else [])
              ++ (if given router_id then validate_router_id router_id else []),
          [],
        )
        rest)

-- the set of areas after one more
area_errors : Value → List Value → Py (List Issue × List Value)
area_errors null seen = ok ([], seen)
area_errors area_id seen = do
  need_hash area_id
  ok (
    validate_area_id (py_str area_id) ++ flag (seen_before area_id seen) (duplicate_area area_id),
    area_id ∷ seen,
  )

interval_warnings : Value → Value → Py (List Issue)
interval_warnings hello dead =
    if truthy hello && truthy dead then validate_hello_interval hello dead else ok []

unfoldable pub areas_findings : List Value → List Value → Py Findings
unfolding area_errors interval_warnings
areas_findings seen [] = ok ([], [])
areas_findings seen (area ∷ areas) = do
  area_id ← get area "area_id" null
  (errors, seen₁) ← area_errors area_id seen
  hello ← get area "hello_interval" null
  dead ← get area "dead_interval" null
  warnings ← interval_warnings hello dead
  rest ← areas_findings seen₁ areas
  ok (joined (errors, warnings) rest)

unfoldable pub validate_ospf : Value → Py Findings
unfolding areas_findings
validate_ospf ospf_config = do
  areas ← get ospf_config "areas" (arr nil)
  rows ← iterate areas
  areas_findings [] rows
