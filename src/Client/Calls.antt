-- ===== src/Client/Calls.antt =====
-- dashboard/utils/api_client.py: the calls of NetDeployClient.
use netdeploy.Base.{ℕ, String, List, [], ◌∷◌, ◌++◌, Option, none, some, pos}
use netdeploy.Text.{Text, codes}
use netdeploy.Value.{Value, null, int, str, arr, obj, Items, nil, cons, Fields, end, field}
use netdeploy.Client.Session.{Verb, Call, Client}

-- one call of the session
call : Client → Verb → Text → Fields → Value → Call
call c verb path params json = record {
  verb = verb;
  base = c.api_url;
  path = path;
  params = params;
  json = json;
  timeout = c.timeout;
}

get_call : Client → Text → Fields → Call
unfolding call
get_call c path params = call c Verb.get path params null

post_call : Client → Text → Value → Call
unfolding call
post_call c path json = call c Verb.post path end json

devices_path : Text → Text
devices_path rest = codes "/api/devices/" ++ rest

deployments_path : Text → Text
deployments_path rest = codes "/api/deployments/" ++ rest

-- `if v: params[k] = v`
with_text : String → Option Text → Fields
with_text k none = end
with_text k (some []) = end
with_text k (some (c ∷ t)) = field k (str (c ∷ t)) end

-- An id or another text in front of the rest of the fields.
with_text_first : String → Option Text → Fields → Fields
with_text_first k none rest = rest
with_text_first k (some []) rest = rest
with_text_first k (some (c ∷ t)) rest = field k (str (c ∷ t)) rest

texts : List Text → Items
texts [] = nil
texts (t ∷ ts) = cons (str t) (texts ts)

module _ (c : Client) where
  unfoldable pub health_check_call : Call
  unfolding get_call
  health_check_call = get_call c (codes "/health") end

  unfoldable pub list_devices_call : Call
  unfolding get_call devices_path
  list_devices_call = get_call c (devices_path []) end

  unfoldable pub get_device_call : Text → Call
  unfolding get_call devices_path
  get_device_call device_id = get_call c (devices_path device_id) end

  unfoldable pub create_device_call : Value → Call
  unfolding post_call devices_path
  create_device_call device_data = post_call c (devices_path []) device_data

  unfoldable pub update_device_call : Text → Value → Call
  unfolding call devices_path
  update_device_call device_id updates = call c Verb.put (devices_path device_id) end updates

  unfoldable pub delete_device_call : Text → Call
  unfolding call devices_path
  delete_device_call device_id = call c Verb.delete (devices_path device_id) end null

  unfoldable pub check_device_health_call : Text → Call
  unfolding get_call devices_path
  check_device_health_call device_id = get_call c (devices_path (device_id ++ codes "/health")) end

  unfoldable pub sync_device_call : Text → Call
  unfolding post_call devices_path
  sync_device_call device_id = post_call c (devices_path (device_id ++ codes "/sync")) null

  unfoldable pub list_deployments_call : ℕ → Option Text → Call
  unfolding get_call deployments_path with_text
  list_deployments_call limit status =
      get_call c (deployments_path []) (field "limit" (int (pos limit)) (with_text "status" status))

  unfoldable pub get_deployment_call : Text → Call
  unfolding get_call deployments_path
  get_deployment_call deployment_id = get_call c (deployments_path deployment_id) end

  unfoldable pub get_deployment_logs_call : Text → Call
  unfolding get_call deployments_path
  get_deployment_logs_call deployment_id =
      get_call c (deployments_path (deployment_id ++ codes "/logs")) end

  unfoldable pub get_deployment_snapshot_call : Text → Option Text → Call
  unfolding get_call deployments_path with_text
  get_deployment_snapshot_call deployment_id device_id =
      get_call c (deployments_path (deployment_id ++ codes "/snapshot"))
        (with_text "device_id" device_id)

  unfoldable pub trigger_deployment_call : List Text → Text → Text → Call
  unfolding post_call texts
  trigger_deployment_call device_ids config_version strategy =
      post_call c (codes "/api/configs/deploy") (
        obj (
          field "device_ids" (arr (texts device_ids))
            (field "config_version" (str config_version) (field "strategy" (str strategy) end))))

  unfoldable pub rollback_deployment_call : Text → Text → Call
  unfolding post_call deployments_path
  rollback_deployment_call deployment_id reason =
      post_call c (deployments_path (deployment_id ++ codes "/rollback"))
        (obj (field "deployment_id" (str deployment_id) (field "reason" (str reason) end)))

  unfoldable pub get_batch_call : Text → Call
  unfolding get_call deployments_path
  get_batch_call batch_id = get_call c (deployments_path (codes "batch/" ++ batch_id)) end

  unfoldable pub create_config_call : Text → Value → Text → Call
  unfolding post_call
  create_config_call device_id desired_state description = post_call c (codes "/api/configs/") (
      obj (
        field "device_id" (str device_id)
          (field "desired_state" desired_state (field "description" (str description) end))))

  unfoldable pub validate_config_call : Text → Value → Call
  unfolding post_call
  validate_config_call device_id desired_state =
      post_call c (codes "/api/configs/validate")
        (obj (field "device_id" (str device_id) (field "desired_state" desired_state end)))

  unfoldable pub get_config_history_call : Text → ℕ → Call
  unfolding get_call
  get_config_history_call device_id limit =
      get_call c (codes "/api/configs/history")
        (field "device_id" (str device_id) (field "limit" (int (pos limit)) end))

  unfoldable pub get_config_diff_call : Text → Call
  unfolding get_call
  get_config_diff_call device_id =
      get_call c (codes "/api/configs/diff") (field "device_id" (str device_id) end)

  unfoldable pub get_audit_log_call : Option Text → Option Text → Option Text → ℕ → Call
  unfolding get_call with_text with_text_first
  get_audit_log_call user action resource_type limit = get_call c (codes "/api/audit-log/") (
      field "limit" (int (pos limit)) (
        with_text_first "user_id" user
          (with_text_first "action" action (with_text "resource_type" resource_type))))
