-- ===== src/Routes/Configs.antt =====
-- api/routes/configs.py: the validation, storage and listing of configurations, with the request
-- that api/schemas.py merges.
pub mod Latest
pub mod Polling
use netdeploy.Base.{
  ℕ, String, Bool, true, false, List, [], ◌∷◌, ◌++◌, length, Option, none, some, ◌==◌, ltb, keep,
  if◌then◌else◌, pos,
}
use netdeploy.Text.{Text, codes}
use netdeploy.Value.{Fields, end, field, str, bool, int, obj}
use netdeploy.Py.{Py, exn_text}
use netdeploy.Db.{Db, Device, Configuration, find_device, add_audit}
use netdeploy.Proc.{Proc, ret, ◌>>=◌, ◌>>◌, gets, modify, lift}
use netdeploy.Snapshots.{Env, utcnow, uuid4}
use netdeploy.Validator.{ValidationResult, validate}
use netdeploy.Orchestrator.Device.{not_found}
use netdeploy.Orchestrator.Records.{latest_config}
use netdeploy.Routes.{message, Reply, reply, refused, page, Ordering}
use netdeploy.Routes.Deployments.{DeployJob, Triggered, trigger_deployment}
use netdeploy.Routes.Devices.{get_client_ip}

pub record ConfigRequest : Type 0 where
  pub device_id : ℕ
  pub desired_state : Option Fields
  pub bgp : Option Fields
  pub ospf : Option Fields
  pub description : Text
  pub created_by : Text

-- `state[key] = value` for a value that is not empty
with_section : String → Option Fields → Fields → Fields
with_section key none rest = rest
with_section key (some end) rest = rest
with_section key (some (field k v fs)) rest = field key (obj (field k v fs)) rest

-- `_coerce_desired_state`: the sections stand in for a state that is missing or empty
unfoldable pub coerced : ConfigRequest → Option Fields → Fields
unfolding with_section
coerced r (some (field k v fs)) = field k v fs
coerced r _ = with_section "bgp" r.bgp (with_section "ospf" r.ospf end)

abbrev pub state_of : ConfigRequest → Fields
state_of r = coerced r r.desired_state

-- `_write_audit`, of a resource that is named by its id
unfoldable pub write_config_audit : Text → String → ℕ → Fields → Option Text → Proc (Unit {0})
write_config_audit user_id action resource_id details ip = modify (
    add_audit (record {
      user_id = user_id;
      action = action;
      resource_type = "Configuration";
      resource_id = resource_id;
      details = details;
      ip_address = ip;
    }))

-- the details of a validation's audit entry
validation_details : ConfigRequest → ValidationResult → Fields
validation_details r result = field "valid" (bool result.valid) (
    field "error_count" (int (pos (length result.errors))) (
      field "warning_count" (int (pos (length result.warnings)))
        (field "description" (str r.description) end)))

-- `request_body.created_by or user["user_id"]`
author : Text → Text → Text
author [] user_id = user_id
author (c ∷ t) user_id = c ∷ t

-- One row of the reply to a batch: a device that is unknown has an error and no hostname.
pub data BatchItem : Type 0 where
  unknown : ℕ → BatchItem
  judged : ℕ → Text → ValidationResult → BatchItem

module _ (env : Env) (user_id : Text) (client : Option Text) where
  -- The audit entry is written in the background, after the reply is made.
  unfoldable pub validate_known : ConfigRequest → Option Device → Proc (Reply ValidationResult)
  unfolding validation_details
  validate_known r none = ret (refused 404 (message (codes "Device not found")))
  validate_known r (some device) = do
    result ← lift (validate (obj (state_of r)) (some device.device_type))
    write_config_audit user_id "VALIDATE" r.device_id (validation_details r result)
        (some (get_client_ip client))
    ret (reply result)

  unfoldable pub validate_config : ConfigRequest → Proc (Reply ValidationResult)
  unfolding validate_known
  validate_config r = do device ← gets (find_device r.device_id); validate_known r device

  -- A new configuration, with the defaults of its columns.
  unfoldable pub new_config : ConfigRequest → ℕ → ℕ → Configuration
  unfolding author
  new_config r id created_at = record {
    id = id;
    device_id = r.device_id;
    version = "pending";
    desired_state = state_of r;
    status = "PENDING";
    created_by = author r.created_by user_id;
    created_at = created_at;
  }

  unfoldable pub add_config : Configuration → Db → Db
  add_config c db = record db { configurations = db.configurations ++ (c ∷ []) }

  unfoldable pub create_known : ConfigRequest → Option Device → Proc (Reply Configuration)
  unfolding new_config add_config
  create_known r none = ret (refused 404 (message (codes "Device not found")))
  create_known r (some device) = do
    id ← uuid4 env
    created_at ← utcnow env
    modify (add_config (new_config r id created_at))
    ret (reply (new_config r id created_at))

  unfoldable pub create_config : ConfigRequest → Proc (Reply Configuration)
  unfolding create_known
  create_config r = do device ← gets (find_device r.device_id); create_known r device

judge_item : ConfigRequest → Option Device → Proc BatchItem
judge_item r none = ret (unknown r.device_id)
judge_item r (some device) = do
  result ← lift (validate (obj (state_of r)) (some device.device_type))
  ret (judged r.device_id device.hostname result)

unfoldable pub validate_config_batch : List ConfigRequest → Proc (List BatchItem)
unfolding judge_item
validate_config_batch [] = ret []
validate_config_batch (r ∷ rs) = do
  device ← gets (find_device r.device_id)
  item ← judge_item r device
  rest ← validate_config_batch rs
  ret (item ∷ rest)

desired_or_none : Option Configuration → Option Fields
desired_or_none none = none
desired_or_none (some c) = some c.desired_state

diff_reply : Db → ℕ → Option Device → Reply (ℕ × Option Fields)
unfolding desired_or_none
diff_reply db device_id none = refused 404 (message (codes "Device not found"))
diff_reply db device_id (some d) = reply (device_id, desired_or_none (latest_config device_id db))

-- `get_config_diff`: the running configuration and the diff are always null
unfoldable pub get_config_diff : ℕ → Proc (Reply (ℕ × Option Fields))
unfolding diff_reply
get_config_diff device_id = gets (λ db. diff_reply db device_id (find_device device_id db))

of_device : Option ℕ → List Configuration → List Configuration
of_device none cs = cs
of_device (some id) cs = keep (λ c. c.device_id == id) cs

unfoldable pub list_configs : Ordering → Option ℕ → ℕ → ℕ → Proc (List Configuration)
unfolding of_device
list_configs order device_id limit skip = gets (λ db.
    page skip limit (order.newest (λ c. c.created_at) (of_device device_id db.configurations)))

unfoldable pub config_history : Ordering → ℕ → ℕ → Proc (List Configuration)
unfolding of_device
config_history order device_id limit = gets (λ db.
    page 0 limit (order.newest (λ c. c.created_at) (of_device (some device_id) db.configurations)))

-- the reply of `deploy_config`; its status is always QUEUED
pub record Deployed : Type 0 where
  pub batch_id : ℕ
  pub task_id : Text
  pub strategy : String
  pub device_count : ℕ

without_ids : Reply Triggered → Reply Deployed
without_ids (refused code d) = refused code d
without_ids (reply t) = reply (record {
  batch_id = t.batch_id;
  task_id = t.task_id;
  strategy = t.strategy;
  device_count = t.device_count;
})

-- `deploy_config` takes the steps of `trigger_deployment`, and replies without the ids of the rows.
unfoldable pub deploy_config :
    Env → (DeployJob → Proc Text) → Text → List ℕ → String → String → Proc (Reply Deployed)
unfolding without_ids
deploy_config env delay user_id device_ids config_version strategy = do
  r ← trigger_deployment env delay user_id device_ids config_version strategy
  ret (without_ids r)
