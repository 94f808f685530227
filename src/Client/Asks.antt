-- ===== src/Client/Asks.antt =====
-- dashboard/utils/api_client.py: the requests that a page of the dashboard can make of the client,
-- one for each method, and the handler of the API that each is meant for.
use netdeploy.Base.{ℕ, Bool, true, false, ◌&&◌, ◌||◌, List, [], ◌∷◌, Option, leb, ◌==◌, ◌≡◌}
use netdeploy.Text.{Text}
use netdeploy.Value.{Value}
use netdeploy.Py.{Py}
use netdeploy.Client
use netdeploy.Client.Session.{Http, Client, Call}
use netdeploy.Client.Calls.{
  health_check_call, list_devices_call, get_device_call, create_device_call, update_device_call,
  delete_device_call, check_device_health_call, sync_device_call, list_deployments_call,
  get_deployment_call, get_deployment_logs_call, get_deployment_snapshot_call,
  trigger_deployment_call, rollback_deployment_call, get_batch_call, create_config_call,
  validate_config_call, get_config_history_call, get_config_diff_call, get_audit_log_call,
}
use netdeploy.Routes.Table.{Handler}

pub data Ask : Type 0 where
  health_check : Ask
  list_devices : Ask
  get_device : Text → Ask
  create_device : Value → Ask
  update_device : Text → Value → Ask
  delete_device : Text → Ask
  check_device_health : Text → Ask
  sync_device : Text → Ask
  list_deployments : ℕ → Option Text → Ask
  get_deployment : Text → Ask
  get_deployment_logs : Text → Ask
  get_deployment_snapshot : Text → Option Text → Ask
  trigger_deployment : List Text → Text → Text → Ask
  trigger_deployment_detailed : List Text → Text → Text → Ask
  rollback_deployment : Text → Text → Ask
  get_batch : Text → Ask
  create_config : Text → Value → Text → Ask
  validate_config : Text → Value → Ask
  get_config_history : Text → ℕ → Ask
  get_config_diff : Text → Ask
  get_audit_log : Option Text → Option Text → Option Text → ℕ → Ask

-- what the method of the client returns
unfoldable pub perform : Http → Client → Ask → Py Value
perform http c Ask.health_check = Client.health_check http c
perform http c Ask.list_devices = Client.list_devices http c
perform http c (Ask.get_device device_id) = Client.get_device http c device_id
perform http c (Ask.create_device device_data) = Client.create_device http c device_data
perform http c (Ask.update_device device_id updates) = Client.update_device http c device_id updates
perform http c (Ask.delete_device device_id) = Client.delete_device http c device_id
perform http c (Ask.check_device_health device_id) = Client.check_device_health http c device_id
perform http c (Ask.sync_device device_id) = Client.sync_device http c device_id
perform http c (Ask.list_deployments limit status) = Client.list_deployments http c limit status
perform http c (Ask.get_deployment deployment_id) = Client.get_deployment http c deployment_id
perform http c (Ask.get_deployment_logs deployment_id) =
    Client.get_deployment_logs http c deployment_id
perform http c (Ask.get_deployment_snapshot deployment_id device_id) =
    Client.get_deployment_snapshot http c deployment_id device_id
perform http c (Ask.trigger_deployment device_ids config_version strategy) =
    Client.trigger_deployment http c device_ids config_version strategy
perform http c (Ask.trigger_deployment_detailed device_ids config_version strategy) =
    Client.trigger_deployment_detailed http c device_ids config_version strategy
perform http c (Ask.rollback_deployment deployment_id reason) =
    Client.rollback_deployment http c deployment_id reason
perform http c (Ask.get_batch batch_id) = Client.get_batch http c batch_id
perform http c (Ask.create_config device_id desired_state description) =
    Client.create_config http c device_id desired_state description
perform http c (Ask.validate_config device_id desired_state) =
    Client.validate_config http c device_id desired_state
perform http c (Ask.get_config_history device_id limit) =
    Client.get_config_history http c device_id limit
perform http c (Ask.get_config_diff device_id) = Client.get_config_diff http c device_id
perform http c (Ask.get_audit_log user action resource_type limit) =
    Client.get_audit_log http c user action resource_type limit

-- the call that the method makes
unfoldable pub call_of : Client → Ask → Call
call_of c Ask.health_check = health_check_call c
call_of c Ask.list_devices = list_devices_call c
call_of c (Ask.get_device device_id) = get_device_call c device_id
call_of c (Ask.create_device device_data) = create_device_call c device_data
call_of c (Ask.update_device device_id updates) = update_device_call c device_id updates
call_of c (Ask.delete_device device_id) = delete_device_call c device_id
call_of c (Ask.check_device_health device_id) = check_device_health_call c device_id
call_of c (Ask.sync_device device_id) = sync_device_call c device_id
call_of c (Ask.list_deployments limit status) = list_deployments_call c limit status
call_of c (Ask.get_deployment deployment_id) = get_deployment_call c deployment_id
call_of c (Ask.get_deployment_logs deployment_id) = get_deployment_logs_call c deployment_id
call_of c (Ask.get_deployment_snapshot deployment_id device_id) =
    get_deployment_snapshot_call c deployment_id device_id
call_of c (Ask.trigger_deployment device_ids config_version strategy) =
    trigger_deployment_call c device_ids config_version strategy
call_of c (Ask.trigger_deployment_detailed device_ids config_version strategy) =
    trigger_deployment_call c device_ids config_version strategy
call_of c (Ask.rollback_deployment deployment_id reason) =
    rollback_deployment_call c deployment_id reason
call_of c (Ask.get_batch batch_id) = get_batch_call c batch_id
call_of c (Ask.create_config device_id desired_state description) =
    create_config_call c device_id desired_state description
call_of c (Ask.validate_config device_id desired_state) =
    validate_config_call c device_id desired_state
call_of c (Ask.get_config_history device_id limit) = get_config_history_call c device_id limit
call_of c (Ask.get_config_diff device_id) = get_config_diff_call c device_id
call_of c (Ask.get_audit_log user action resource_type limit) =
    get_audit_log_call c user action resource_type limit

-- the handler that the method is meant for, with its path parameters
unfoldable pub target : Ask → Handler × List Text
target Ask.health_check = (Handler.health_check, [])
target Ask.list_devices = (Handler.list_devices, [])
target (Ask.get_device device_id) = (Handler.get_device, device_id ∷ [])
target (Ask.create_device _) = (Handler.create_device, [])
target (Ask.update_device device_id _) = (Handler.update_device, device_id ∷ [])
target (Ask.delete_device device_id) = (Handler.delete_device, device_id ∷ [])
target (Ask.check_device_health device_id) = (Handler.device_health, device_id ∷ [])
target (Ask.sync_device device_id) = (Handler.sync_device, device_id ∷ [])
target (Ask.list_deployments _ _) = (Handler.list_deployments, [])
target (Ask.get_deployment deployment_id) = (Handler.get_deployment, deployment_id ∷ [])
target (Ask.get_deployment_logs deployment_id) = (Handler.get_deployment_logs, deployment_id ∷ [])
target (Ask.get_deployment_snapshot deployment_id _) =
    (Handler.get_deployment_snapshot, deployment_id ∷ [])
target (Ask.trigger_deployment _ _ _) = (Handler.deploy_config, [])
target (Ask.trigger_deployment_detailed _ _ _) = (Handler.deploy_config, [])
target (Ask.rollback_deployment deployment_id _) = (Handler.rollback_deployment, deployment_id ∷ [])
target (Ask.get_batch batch_id) = (Handler.get_batch, batch_id ∷ [])
target (Ask.create_config _ _ _) = (Handler.create_config, [])
target (Ask.validate_config _ _) = (Handler.validate_config, [])
target (Ask.get_config_history _ _) = (Handler.config_history, [])
target (Ask.get_config_diff _) = (Handler.get_config_diff, [])
target (Ask.get_audit_log _ _ _ _) = (Handler.list_audit_log, [])

-- The characters of a UUID text.
unfoldable pub id_char : ℕ → Bool
id_char c = (leb b'0' c && leb c b'9') || ((leb b'a' c && leb c b'f') || c == b'-')

unfoldable pub is_id : Text → Bool
unfolding id_char
is_id [] = false
is_id (c ∷ []) = id_char c
is_id (c ∷ d ∷ t) = id_char c && is_id (d ∷ t)

-- Every path parameter is written like a UUID.
unfoldable pub HasIds : Ask → Type 0
HasIds (Ask.get_device device_id) = is_id device_id ≡ true
HasIds (Ask.update_device device_id _) = is_id device_id ≡ true
HasIds (Ask.delete_device device_id) = is_id device_id ≡ true
HasIds (Ask.check_device_health device_id) = is_id device_id ≡ true
HasIds (Ask.sync_device device_id) = is_id device_id ≡ true
HasIds (Ask.get_deployment deployment_id) = is_id deployment_id ≡ true
HasIds (Ask.get_deployment_logs deployment_id) = is_id deployment_id ≡ true
HasIds (Ask.get_deployment_snapshot deployment_id _) = is_id deployment_id ≡ true
HasIds (Ask.rollback_deployment deployment_id _) = is_id deployment_id ≡ true
HasIds (Ask.get_batch batch_id) = is_id batch_id ≡ true
HasIds _ = Unit
