-- ===== src/Client.antt =====
-- dashboard/utils/api_client.py: NetDeployClient. A Python result is the JSON value that it is: a
-- missing answer is `null`, and a bool is a Boolean value.
pub mod Session
pub mod Calls
pub mod Asks
pub mod Health
pub mod Paths
pub mod Finish
pub mod Answers
pub mod Routed
use netdeploy.Base.{ℕ, Bool, true, false, not, List, Option, ◌==◌, leb, if◌then◌else◌, pos}
use netdeploy.Text.{Text, codes}
use netdeploy.Value.{Value, null, bool, int, str, arr, obj, nil, end, field, truthy, value_eq}
use netdeploy.Py.{Py, ok, Exn, exn_text, ◌>>=◌, ◌>>◌, get}
use Session.{Response, Http, Client, raise_for_status, try_except, answer}
use Calls.{
  list_devices_call, get_device_call, create_device_call, update_device_call,
  check_device_health_call, sync_device_call, list_deployments_call, get_deployment_call,
  get_deployment_logs_call, get_deployment_snapshot_call, get_batch_call, create_config_call,
  validate_config_call, get_config_history_call, get_config_diff_call, get_audit_log_call,
  health_check_call, delete_device_call, trigger_deployment_call, rollback_deployment_call,
}

-- `r.status_code == 200 and r.json().get("status") != "error"`
unfoldable pub is_healthy : Response → Py Value
unfolding ◌>>=◌ get value_eq
is_healthy r =
    let said = r.json >>= λ v.
    get v "status" null >>= λ s. ok (bool (not (value_eq s (str (codes "error"))))) in
    if r.status_code == 200 then said else ok (bool false)

-- `r.json().get("detail", r.text)`, or the text if that raises
unfoldable pub detail_of : Response → Py Value
unfolding ◌>>=◌ try_except get
detail_of r = try_except (r.json >>= λ v. get v "detail" (str r.text)) (λ e. ok (str r.text))

-- the dict of an error response
unfoldable pub trigger_refused : Response → Py Value
unfolding ◌>>=◌ detail_of
trigger_refused r = do
  detail ← detail_of r
  ok (
      obj (
        field "success" (bool false)
          (field "status_code" (int (pos r.status_code)) (field "detail" detail end))))

unfoldable pub trigger_accepted : Response → Py Value
unfolding ◌>>=◌ get
trigger_accepted r = do
  answered ← r.json
  batch_id ← get answered "batch_id" null
  ok (obj (field "success" (bool true) (field "batch_id" batch_id (field "data" answered end))))

unfoldable pub trigger_failed : Exn → Py Value
unfolding exn_text
trigger_failed e = ok (obj (field "success" (bool false) (field "detail" (str (exn_text e)) end)))

-- `trigger_deployment_detailed`, given the response
unfoldable pub trigger_result : Py Response → Py Value
unfolding ◌>>=◌ try_except trigger_refused trigger_accepted trigger_failed
trigger_result response =
    try_except
      (response >>= λ r. if leb 400 r.status_code then trigger_refused r else trigger_accepted r)
      trigger_failed

-- `result.get("batch_id") if result.get("success") else None`
unfoldable pub batch_id_of : Value → Py Value
unfolding ◌>>=◌ get truthy
batch_id_of result = do
  success ← get result "success" null
  if truthy success then get result "batch_id" null else ok null

module _ (http : Http) (c : Client) where
  unfoldable pub health_check : Py Value
  unfolding ◌>>=◌ try_except is_healthy
  health_check = try_except (http (health_check_call c) >>= is_healthy) (λ e. ok (bool false))

  unfoldable pub list_devices : Py Value
  unfolding answer
  list_devices = answer (arr nil) (http (list_devices_call c))

  unfoldable pub get_device : Text → Py Value
  unfolding answer
  get_device device_id = answer null (http (get_device_call c device_id))

  unfoldable pub create_device : Value → Py Value
  unfolding answer
  create_device device_data = answer null (http (create_device_call c device_data))

  unfoldable pub update_device : Text → Value → Py Value
  unfolding answer
  update_device device_id updates = answer null (http (update_device_call c device_id updates))

  unfoldable pub check_device_health : Text → Py Value
  unfolding answer
  check_device_health device_id = answer null (http (check_device_health_call c device_id))

  unfoldable pub sync_device : Text → Py Value
  unfolding answer
  sync_device device_id = answer null (http (sync_device_call c device_id))

  unfoldable pub list_deployments : ℕ → Option Text → Py Value
  unfolding answer
  list_deployments limit status = answer (arr nil) (http (list_deployments_call c limit status))

  unfoldable pub get_deployment : Text → Py Value
  unfolding answer
  get_deployment deployment_id = answer null (http (get_deployment_call c deployment_id))

  unfoldable pub get_deployment_logs : Text → Py Value
  unfolding answer
  get_deployment_logs deployment_id = answer null (http (get_deployment_logs_call c deployment_id))

  unfoldable pub get_deployment_snapshot : Text → Option Text → Py Value
  unfolding answer
  get_deployment_snapshot deployment_id device_id =
      answer null (http (get_deployment_snapshot_call c deployment_id device_id))

  unfoldable pub get_batch : Text → Py Value
  unfolding answer
  get_batch batch_id = answer null (http (get_batch_call c batch_id))

  unfoldable pub create_config : Text → Value → Text → Py Value
  unfolding answer
  create_config device_id desired_state description =
      answer null (http (create_config_call c device_id desired_state description))

  unfoldable pub validate_config : Text → Value → Py Value
  unfolding answer
  validate_config device_id desired_state =
      answer null (http (validate_config_call c device_id desired_state))

  unfoldable pub get_config_history : Text → ℕ → Py Value
  unfolding answer
  get_config_history device_id limit =
      answer (arr nil) (http (get_config_history_call c device_id limit))

  unfoldable pub get_config_diff : Text → Py Value
  unfolding answer
  get_config_diff device_id = answer null (http (get_config_diff_call c device_id))

  unfoldable pub get_audit_log : Option Text → Option Text → Option Text → ℕ → Py Value
  unfolding answer
  get_audit_log user action resource_type limit =
      answer (arr nil) (http (get_audit_log_call c user action resource_type limit))

  unfoldable pub delete_device : Text → Py Value
  unfolding ◌>>=◌ try_except raise_for_status
  delete_device device_id =
      try_except
        (http (delete_device_call c device_id) >>= λ r. raise_for_status r >> ok (bool true))
        (λ e. ok (bool false))

  unfoldable pub trigger_deployment_detailed : List Text → Text → Text → Py Value
  unfolding trigger_result
  trigger_deployment_detailed device_ids config_version strategy =
      trigger_result (http (trigger_deployment_call c device_ids config_version strategy))

  unfoldable pub trigger_deployment : List Text → Text → Text → Py Value
  unfolding ◌>>=◌ trigger_deployment_detailed batch_id_of
  trigger_deployment device_ids config_version strategy =
      trigger_deployment_detailed device_ids config_version strategy >>= batch_id_of

  unfoldable pub rollback_deployment : Text → Text → Py Value
  unfolding ◌>>=◌ try_except raise_for_status get
  rollback_deployment deployment_id reason =
      try_except
        (http (rollback_deployment_call c deployment_id reason) >>= λ r.
          raise_for_status r >> (r.json >>= λ v. get v "task_id" null))
        (λ e. ok null)
