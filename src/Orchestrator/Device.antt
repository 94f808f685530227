-- ===== src/Orchestrator/Device.antt =====
-- core/orchestrator.py: deployment to one device, health check and rollback.
use netdeploy.Base.{
  ℕ, String, Bool, true, false, not, List, [], ◌∷◌, ◌++◌, Option, none, some, keep, if◌then◌else◌,
}
use netdeploy.Text.{Text, codes, decimal}
use netdeploy.Value.{bool, str, arr, obj, Items, nil, cons, Fields, end, field, py_str}
use netdeploy.Py.{Exn, runtime_error, exn_text}
use netdeploy.Commands.{build}
use netdeploy.Db.{Device, Deployment, in_progress, success, rollback, failed}
use netdeploy.Proc.{Proc, ret, throw, ◌>>=◌, ◌>>◌, try_except, try_finally, lift}
use netdeploy.Ssh.{SshDevice, connect, send_config_set, disconnect}
use netdeploy.Verifier.{Check, VerificationResult, verify_all}
use netdeploy.Snapshots.{Env, uuid4, save_snapshot, capture_running_config}
use netdeploy.Orchestrator.Records.{
  get_device, get_desired_config, get_deployment_for_batch_device, update_deployment_status,
  append_deployment_log, write_audit,
}

-- The result dict, without the elapsed time. The early failures name no deployment.
pub record DeviceResult : Type 0 where
  pub success : Bool
  pub device_id : ℕ
  pub deployment_id : Option ℕ
  pub error : Option Text

-- The text of a UUID is not modelled further than its number.
abbrev pub id_text : ℕ → Text
id_text = decimal

-- `if deployment: …`
unfoldable pub when_deployed : Option Deployment → Proc (Unit {0}) → Proc (Unit {0})
when_deployed none p = ret tt
when_deployed (some d) p = p

-- `deployment.id if deployment else uuid4()`
unfoldable pub deployment_id_of : Env → Option Deployment → Proc ℕ
deployment_id_of env none = uuid4 env
deployment_id_of env (some d) = ret d.id

abbrev pub not_found : ℕ → Text
not_found device_id = codes "Device " ++ (id_text device_id ++ codes " not found")

abbrev pub no_config : ℕ → String → Text
no_config device_id version =
    codes "No config found for device "
    ++ (id_text device_id ++ (codes " at version " ++ codes version))

-- `running or {}`
abbrev pub or_empty : Option Fields → Fields
or_empty none = end
or_empty (some config) = config

-- `raise RuntimeError(text)` unless the test passes
unfoldable pub ensure : Bool → Text → Proc (Unit {0})
ensure true text = ret tt
ensure false text = throw (runtime_error text)

-- the text of a list of check dicts
check_items : List Check → Items
check_items [] = nil
check_items (c ∷ cs) =
    cons
      (obj (
        field "name" (str c.name)
          (field "passed" (bool c.passed) (field "detail" (str c.detail) end))))
      (check_items cs)

failed_checks : VerificationResult → Text
unfolding check_items
failed_checks vr =
    codes "State verification failed: "
    ++ py_str (arr (check_items (keep (λ c. not c.passed) vr.checks)))

-- `_rollback_device`: an audit entry, and nothing else
unfoldable pub rollback_known : ℕ → Text → Option Device → Proc Bool
rollback_known device_id user_id none = ret false
rollback_known device_id user_id (some device) = do
  write_audit user_id "ROLLBACK" device_id
      (field "reason" (str (codes "auto-rollback on deploy failure")) end)
  ret true

unfoldable pub rollback_device : ℕ → Text → Proc Bool
unfolding rollback_known
rollback_device device_id user_id = do
  device ← get_device device_id
  rollback_known device_id user_id device

-- `_health_check`: no state is verified
unfoldable pub health_of : ℕ → Option Device → Proc Bool
health_of device_id none = ret false
health_of device_id (some device) = do
  desired_config ← get_desired_config device_id "latest"
  ret true

unfoldable pub health_check : ℕ → Proc Bool
unfolding health_of
health_check device_id = do device ← get_device device_id; health_of device_id device

module _ (env : Env) (device_id : ℕ) (config_version : String) (user_id : Text) where
  -- the result of an early failure, with the row marked as failed
  unfoldable pub early_failure : Option Deployment → ℕ → Text → Proc DeviceResult
  early_failure deployment deployment_id err = do
    when_deployed deployment (update_deployment_status env deployment_id failed (some err) none)
    ret (record { success = false; device_id = device_id; deployment_id = none; error = some err })

  abbrev pub succeeded : ℕ → DeviceResult
  succeeded deployment_id = record {
    success = true;
    device_id = device_id;
    deployment_id = some deployment_id;
    error = none;
  }

  -- the branch of `settings.DEPLOY_DRY_RUN`
  unfoldable pub dry_deploy : Option Deployment → ℕ → Proc DeviceResult
  dry_deploy deployment deployment_id = do
    when_deployed deployment (do
      append_deployment_log deployment_id (codes "DRY RUN enabled — skipping SSH connect/apply.")
      update_deployment_status env deployment_id success none none)
    write_audit user_id "DEPLOY" device_id
        (field "version" (str (codes config_version)) (field "dry_run" (bool true) end))
    ret (succeeded deployment_id)

  -- step 7, after the state was verified
  unfoldable pub last_steps : ℕ → SshDevice → Proc DeviceResult
  last_steps deployment_id session = do
    after ← capture_running_config session
    save_snapshot env deployment_id device_id (or_empty after) false
    update_deployment_status env deployment_id success none none
    write_audit user_id "DEPLOY" device_id (field "version" (str (codes config_version)) end)
    ret (succeeded deployment_id)

  -- the body of the `try`, steps 2 to 7
  unfoldable pub apply_config :
      Option Deployment → ℕ → Device → Fields → SshDevice → Proc DeviceResult
  unfolding failed_checks
  apply_config deployment deployment_id device desired ssh = do
    when_deployed deployment (
        append_deployment_log deployment_id
          (codes "Connecting via SSH as " ++ (env.ssh_username ++ codes "...")))
    (connected, session) ← connect ssh
    ensure connected (codes "SSH connection failed for " ++ device.hostname)
    running ← capture_running_config session
    save_snapshot env deployment_id device_id (or_empty running) true
    cmds ← lift (build desired device.device_type)
    applied ← send_config_set session cmds
    ensure applied (codes "send_config_set failed — check device logs")
    vr ← verify_all session desired device.device_type
    ensure vr.passed (failed_checks vr)
    last_steps deployment_id session

  -- the `except` clause
  unfoldable pub on_failure : Option Deployment → ℕ → Exn → Proc DeviceResult
  on_failure deployment deployment_id e = do
    when_deployed deployment (append_deployment_log deployment_id (codes "ERROR: " ++ exn_text e))
    rollback_device device_id user_id
    update_deployment_status env deployment_id rollback (some (exn_text e)) none
    ret (record {
      success = false;
      device_id = device_id;
      deployment_id = some deployment_id;
      error = some (exn_text e);
    })

  abbrev pub ssh_device : Device → SshDevice
  ssh_device device = record {
    target = record {
      hostname = device.hostname;
      ip = device.management_ip;
      device_type = device.device_type;
      port = device.ssh_port;
    };
    is_open = false;
  }

  unfoldable pub ssh_deploy : Option Deployment → ℕ → Device → Fields → Proc DeviceResult
  ssh_deploy deployment deployment_id device desired =
      let ssh = ssh_device device in
      try_finally
        (try_except (apply_config deployment deployment_id device desired ssh)
          (on_failure deployment deployment_id))
        (disconnect ssh >> ret tt)

  -- the log line of step 1
  abbrev config_loaded : Device → Text
  config_loaded device =
      codes "Config loaded (version="
      ++ (codes config_version
          ++ (codes "). Target: "
              ++ (device.hostname
                  ++ (codes " ("
                      ++ (device.management_ip
                          ++ (codes ":" ++ (decimal device.ssh_port ++ codes ")")))))))

  -- `if not desired_config: …`
  unfoldable pub deploy_desired : Option Deployment → ℕ → Device → Option Fields → Proc DeviceResult
  deploy_desired deployment deployment_id device none =
      early_failure deployment deployment_id (no_config device_id config_version)
  deploy_desired deployment deployment_id device (some end) =
      early_failure deployment deployment_id (no_config device_id config_version)
  deploy_desired deployment deployment_id device (some (field k v fs)) = do
    when_deployed deployment (append_deployment_log deployment_id (config_loaded device))
    if env.dry_run
        then dry_deploy deployment deployment_id
        else ssh_deploy deployment deployment_id device (field k v fs)

  -- `if not device: …`
  unfoldable pub deploy_known : Option Deployment → ℕ → Option Device → Proc DeviceResult
  deploy_known deployment deployment_id none =
      early_failure deployment deployment_id (not_found device_id)
  deploy_known deployment deployment_id (some device) = do
    desired ← get_desired_config device_id config_version
    deploy_desired deployment deployment_id device desired

  -- `_deploy_to_device`
  unfoldable pub deploy_to_device : Option ℕ → Proc DeviceResult
  deploy_to_device batch_id = do
    deployment ← get_deployment_for_batch_device batch_id device_id
    deployment_id ← deployment_id_of env deployment
    when_deployed deployment (update_deployment_status env deployment_id in_progress none none)
    device ← get_device device_id
    deploy_known deployment deployment_id device
