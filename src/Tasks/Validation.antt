-- ===== src/Tasks/Validation.antt =====
-- tasks/validation.py: the tasks that validate configurations.
use netdeploy.Base.{String, Bool, ◌&&◌, List, [], ◌∷◌, map, Option, none, some, if◌then◌else◌}
use netdeploy.Text.{Text}
use netdeploy.Value.{Value, arr, nil, obj, null, end, truthy}
use netdeploy.Py.{Py, Exn, ok, raised, ◌>>=◌, get, iterate}
use netdeploy.Validator.{ValidationResult, validate}
use netdeploy.Validator.Issues.{Issue}

-- The result of `validate_config_task`: the addresses that are reachable, and those that are not.
pub record Checked : Type 0 where
  pub valid : Bool
  pub errors : List Issue
  pub warnings : List Issue
  pub preflight : Option (List Value × List Value)

-- `[n.get("neighbor_ip") for n in neighbors if n.get("neighbor_ip")]`
neighbor_ips_of : List Value → Py (List Value)
neighbor_ips_of [] = ok []
neighbor_ips_of (n ∷ ns) = do
  ip ← get n "neighbor_ip" null
  rest ← neighbor_ips_of ns
  ok (if truthy ip then ip ∷ rest else rest)

unfoldable pub neighbor_ips : Value → Py (List Value)
unfolding neighbor_ips_of
neighbor_ips desired_state = do
  bgp ← get desired_state "bgp" (obj end)
  neighbors ← get bgp "neighbors" (arr nil)
  items ← iterate neighbors
  neighbor_ips_of items

-- `preflight_reachability` is a placeholder that reports every address as reachable, so no warning
-- is added for an unreachable one.
reached : List Value → Option (List Value × List Value)
reached [] = none
reached (ip ∷ ips) = some (ip ∷ ips, [])

unfoldable pub validate_config_task : Value → Option String → Bool → Py Checked
unfolding reached
validate_config_task desired_state device_type run_preflight = do
  result ← validate desired_state device_type
  ips ← if run_preflight && result.valid then neighbor_ips desired_state else ok []
  ok (record {
    valid = result.valid;
    errors = result.errors;
    warnings = result.warnings;
    preflight = reached ips;
  })

-- an item of `validate_batch_task`
pub record Validation : Type 0 where
  pub device_id : Text
  pub desired_state : Option Value
  pub device_type : Option String

-- A row of its result: the verdict, or the exception as the only error.
pub data Verdict : Type 0 where
  judged : Text → ValidationResult → Verdict
  task_error : Text → Exn → Verdict

state_or_empty : Option Value → Value
state_or_empty none = obj end
state_or_empty (some v) = v

verdict_of : Text → Py ValidationResult → Verdict
verdict_of device_id (ok r) = judged device_id r
verdict_of device_id (raised e) = task_error device_id e

unfoldable pub validate_batch_task : List Validation → List Verdict
unfolding state_or_empty verdict_of
validate_batch_task items =
    map (λ i. verdict_of i.device_id (validate (state_or_empty i.desired_state) i.device_type))
      items
