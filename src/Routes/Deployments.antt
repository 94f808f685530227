-- ===== src/Routes/Deployments.antt =====
-- api/routes/deployments.py, and `deploy_config` of api/routes/configs.py. Celery's `delay` is a
-- parameter: it takes the arguments of the task and returns the id of the task.
use netdeploy.Base.{
  ℕ, String, Bool, true, false, List, [], ◌∷◌, ◌++◌, map, length, Option, none, some, if◌then◌else◌,
}
use netdeploy.Text.{Text, codes}
use netdeploy.Db.{
  Db, Deployment, Status, queued, in_progress, success, rollback, failed, find_device,
  find_deployment,
}
use netdeploy.Proc.{Proc, ret, ◌>>=◌, gets}
use netdeploy.Snapshots.{Env, uuid4}
use netdeploy.Orchestrator.Device.{not_found}
use netdeploy.Batches.{create_deployment_records, find_devices_missing_config}
use netdeploy.Routes.{message, missing_configs, Reply, reply, refused}

-- the arguments of `validate_and_deploy_task`
pub record DeployJob : Type 0 where
  pub device_ids : List ℕ
  pub config_version : String
  pub strategy : String
  pub batch_id : ℕ
  pub user_id : Text

-- the arguments of the task `rollback_device`
pub record RollbackJob : Type 0 where
  pub device_id : ℕ
  pub deployment_id : ℕ
  pub user_id : Text

-- The reply to an accepted deployment; its status is always QUEUED.
pub record Triggered : Type 0 where
  pub batch_id : ℕ
  pub deployment_id : ℕ
  pub task_id : Text
  pub strategy : String
  pub device_count : ℕ
  pub deployment_ids : List ℕ

-- the first device of the request that does not exist
unfoldable pub first_unknown : Db → List ℕ → Option ℕ
first_unknown db [] = none
first_unknown db (id ∷ ids) =
    let rest = first_unknown db ids in elim (find_device id db) [ none ↦ some id | some d ↦ rest ]

-- `deployments[0].id if deployments else batch_id`
pub first_id : ℕ → List Deployment → ℕ
first_id batch_id [] = batch_id
first_id batch_id (d ∷ ds) = d.id

module _ (env : Env) (delay : DeployJob → Proc Text) (user_id : Text) where
  unfoldable pub enqueue_deployment : List ℕ → String → String → Proc (Reply Triggered)
  unfolding first_id
  enqueue_deployment device_ids config_version strategy = do
    batch_id ← uuid4 env
    deployments ← create_deployment_records env device_ids batch_id config_version strategy
    task_id ← delay (record {
      device_ids = device_ids;
      config_version = config_version;
      strategy = strategy;
      batch_id = batch_id;
      user_id = user_id;
    })
    ret (
        reply (record {
          batch_id = batch_id;
          deployment_id = first_id batch_id deployments;
          task_id = task_id;
          strategy = strategy;
          device_count = length device_ids;
          deployment_ids = map (λ d. d.id) deployments;
        }))

  -- `if missing: raise HTTPException(422, …)`
  unfoldable pub check_configs : List ℕ → String → String → List ℕ → Proc (Reply Triggered)
  check_configs device_ids config_version strategy [] =
      enqueue_deployment device_ids config_version strategy
  check_configs device_ids config_version strategy (id ∷ ids) =
      ret (refused 422 (missing_configs (id ∷ ids) config_version))

  -- `if not device: raise HTTPException(404, …)`
  unfoldable pub check_devices : List ℕ → String → String → Option ℕ → Proc (Reply Triggered)
  unfolding check_configs
  check_devices device_ids config_version strategy (some id) =
      ret (refused 404 (message (not_found id)))
  check_devices device_ids config_version strategy none = do
    missing ← gets (λ db. find_devices_missing_config db device_ids config_version)
    check_configs device_ids config_version strategy missing

  unfoldable pub trigger_deployment : List ℕ → String → String → Proc (Reply Triggered)
  unfolding check_devices
  trigger_deployment device_ids config_version strategy = do
    unknown ← gets (λ db. first_unknown db device_ids)
    check_devices device_ids config_version strategy unknown

-- `if not deployment: raise HTTPException(404, …)`
unfoldable pub found_or_404 : {A : Type 0} → Text → Option A → Reply A
found_or_404 text none = refused 404 (message text)
found_or_404 text (some a) = reply a

unfoldable pub get_deployment : ℕ → Proc (Reply Deployment)
get_deployment deployment_id =
    gets (λ db. found_or_404 (codes "Deployment not found") (find_deployment deployment_id db))

-- the strings of a status
unfoldable pub status_text : Status → Text
status_text queued = codes "QUEUED"
status_text in_progress = codes "IN_PROGRESS"
status_text success = codes "SUCCESS"
status_text rollback = codes "ROLLBACK"
status_text failed = codes "FAILED"

-- `deployment.status not in ("SUCCESS", "FAILED")`
unfoldable pub may_roll_back : Status → Bool
may_roll_back success = true
may_roll_back failed = true
may_roll_back _ = false

module _ (delay_rollback : RollbackJob → Proc Text) (user_id : Text) where
  unfoldable pub rollback_found : ℕ → Option Deployment → Proc (Reply Text)
  rollback_found deployment_id none = ret (refused 404 (message (codes "Deployment not found")))
  rollback_found deployment_id (some d) =
      if may_roll_back d.status
      then (do
        task_id ←
            delay_rollback
              (record { device_id = d.device_id; deployment_id = deployment_id; user_id = user_id })
        ret (reply task_id))
      else ret (
          refused 400
            (message (codes "Cannot rollback deployment in status: " ++ status_text d.status)))

  -- The reply is the task's id; the other fields repeat the request.
  unfoldable pub rollback_deployment : ℕ → Proc (Reply Text)
  unfolding rollback_found
  rollback_deployment deployment_id = do
    deployment ← gets (find_deployment deployment_id)
    rollback_found deployment_id deployment
