-- ===== src/Orchestrator/Records.antt =====
-- core/orchestrator.py: the helpers of `DeploymentOrchestrator` that read and write the database.
use netdeploy.Base.{
  ℕ, String, Bool, true, false, [], ◌∷◌, ◌++◌, Option, none, some, ◌==◌, str_eq, keep,
  if◌then◌else◌,
}
use netdeploy.Text.{Text, codes}
use netdeploy.Value.{Fields}
use netdeploy.Db.{
  Db, Device, Configuration, Deployment, Status, in_progress, success, rollback, failed, latest,
  find_device, find_deployment, find_in_batch, modify_deployment, add_audit,
}
use netdeploy.Proc.{Proc, ret, ◌>>=◌, gets, modify}
use netdeploy.Snapshots.{Env, utcnow}

unfoldable pub get_device : ℕ → Proc (Option Device)
get_device device_id = gets (find_device device_id)

unfoldable pub desired_of : Option Configuration → Option Fields
desired_of none = none
desired_of (some c) = some c.desired_state

-- the most recent configuration row of a device
unfoldable pub latest_config : ℕ → Db → Option Configuration
latest_config device_id db =
    latest (λ c. c.created_at) (keep (λ c. c.device_id == device_id) db.configurations)

-- `_get_desired_config`: only "latest" is looked up
unfoldable pub get_desired_config : ℕ → String → Proc (Option Fields)
unfolding desired_of
get_desired_config device_id config_version =
    if str_eq config_version "latest"
    then gets (λ d. desired_of (latest_config device_id d))
    else ret none

unfoldable pub get_deployment_for_batch_device : Option ℕ → ℕ → Proc (Option Deployment)
get_deployment_for_batch_device none device_id = ret none
get_deployment_for_batch_device (some batch_id) device_id = gets (find_in_batch batch_id device_id)

abbrev pub is_terminal : Status → Bool
is_terminal success = true
is_terminal rollback = true
is_terminal failed = true
is_terminal _ = false

-- `if t: …` of an optional text
abbrev pub or_old : Option Text → Option Text → Option Text
or_old none old = old
or_old (some []) old = old
or_old (some (c ∷ t)) old = some (c ∷ t)

abbrev pub so_far : Option Text → Text
so_far none = []
so_far (some t) = t

abbrev pub with_line : Option Text → Text → Option Text
with_line logs line = some (so_far logs ++ (line ++ codes "\n"))

abbrev pub add_line : Option Text → Option Text → Option Text
add_line none logs = logs
add_line (some []) logs = logs
add_line (some (c ∷ t)) logs = with_line logs (c ∷ t)

-- the start time is set once, when work begins
unfoldable pub start_time_for : Env → Status → Option ℕ → Proc (Option ℕ)
start_time_for env in_progress none = do t ← utcnow env; ret (some t)
start_time_for env _ old = ret old

unfoldable pub end_time_for : Env → Status → Option ℕ → Proc (Option ℕ)
end_time_for env status old =
    if is_terminal status then (do t ← utcnow env; ret (some t)) else ret old

unfoldable pub assign :
    Status → Option ℕ → Option ℕ → Option Text → Option Text → Deployment → Deployment
assign status start end error_message logs d = record d {
  status = status;
  start_time = start;
  end_time = end;
  error_message = or_old error_message d.error_message;
  logs = add_line logs d.logs;
}

unfoldable pub update_found :
    Env → ℕ → Status → Option Text → Option Text → Option Deployment → Proc (Unit {0})
unfolding start_time_for end_time_for
update_found env id status error_message logs none = ret tt
update_found env id status error_message logs (some d) = do
  start ← start_time_for env status d.start_time
  end ← end_time_for env status d.end_time
  modify (modify_deployment id (assign status start end error_message logs))

-- `_update_deployment_status`
unfoldable pub update_deployment_status :
    Env → ℕ → Status → Option Text → Option Text → Proc (Unit {0})
unfolding update_found
update_deployment_status env id status error_message logs = do
  deployment ← gets (find_deployment id)
  update_found env id status error_message logs deployment

-- `_append_deployment_log`
unfoldable pub append_deployment_log : ℕ → Text → Proc (Unit {0})
append_deployment_log id line =
    modify (modify_deployment id (λ d. record d { logs = with_line d.logs line }))

-- `_write_audit`
unfoldable pub write_audit : Text → String → ℕ → Fields → Proc (Unit {0})
write_audit user_id action device_id details = modify (
    add_audit (record {
      user_id = user_id;
      action = action;
      resource_type = "Deployment";
      resource_id = device_id;
      details = details;
      ip_address = none;
    }))
