-- ===== src/Batches.antt =====
-- api/deployment_helpers.py: the rows of a new batch, and the devices that miss a configuration.
pub mod Created
pub mod Queued
use netdeploy.Base.{
  ℕ, String, Bool, true, false, not, ◌&&◌, ◌||◌, List, [], ◌∷◌, Option, none, some, ◌==◌, str_eq,
  find?, if◌then◌else◌,
}
use netdeploy.Text.{Text}
use netdeploy.Value.{Fields, end, field}
use netdeploy.Db.{Db, Configuration, Deployment, queued, add_deployment}
use netdeploy.Proc.{Proc, ret, ◌>>=◌, ◌>>◌, modify}
use netdeploy.Snapshots.{Env, utcnow, uuid4}
use netdeploy.Orchestrator.Records.{latest_config}

-- A `Deployment` with the defaults of its columns.
unfoldable pub new_row : ℕ → String → String → ℕ → ℕ → ℕ → Deployment
new_row batch_id config_version strategy device_id id created_at = record {
  id = id;
  batch_id = batch_id;
  device_id = device_id;
  config_version = config_version;
  status = queued;
  start_time = none;
  end_time = none;
  error_message = none;
  logs = none;
  strategy = strategy;
  created_at = created_at;
}

-- Ids and times are drawn row by row when the session is flushed.
unfoldable pub create_deployment_records :
    Env → List ℕ → ℕ → String → String → Proc (List Deployment)
unfolding new_row
create_deployment_records env [] batch_id config_version strategy = ret []
create_deployment_records env (device_id ∷ device_ids) batch_id config_version strategy = do
  id ← uuid4 env
  created_at ← utcnow env
  modify (add_deployment (new_row batch_id config_version strategy device_id id created_at))
  rest ← create_deployment_records env device_ids batch_id config_version strategy
  ret (new_row batch_id config_version strategy device_id id created_at ∷ rest)

-- `not config or not config.desired_state`
unusable : Option Configuration → Bool
unusable none = true
unusable (some c) = elim c.desired_state [ end ↦ true | field k v fs ↦ false ]

absent : Option Configuration → Bool
absent none = true
absent (some c) = false

-- `get_latest_config` is the same query as the orchestrator's.
unfoldable pub get_latest_config : Db → ℕ → Option Configuration
get_latest_config db device_id = latest_config device_id db

unfoldable pub misses_config : Db → String → ℕ → Bool
unfolding unusable absent get_latest_config
misses_config db config_version device_id =
    if str_eq config_version "latest"
    then unusable (get_latest_config db device_id)
    else absent (
        find? (λ c. (c.device_id == device_id) && str_eq c.version config_version)
          db.configurations)

unfoldable pub find_devices_missing_config : Db → List ℕ → String → List ℕ
unfolding misses_config
find_devices_missing_config db [] config_version = []
find_devices_missing_config db (device_id ∷ device_ids) config_version =
    let rest = find_devices_missing_config db device_ids config_version in
    if misses_config db config_version device_id then device_id ∷ rest else rest
